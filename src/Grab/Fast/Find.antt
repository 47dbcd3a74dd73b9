-- ===== src/Grab/Fast/Find.antt =====
-- find_or_alloc_slot: the slot it gives is the framebuffer's own or is empty.
use libdrmtap.Prelude.{
  ℕ, zero, suc, ◌+◌, ◌<◌, ◌≡◌, ◌⊎◌, ◌&&◌, true, false, ◌==◌, Option, none, some, List, [], ◌∷◌,
  arith, refl, subst, ◌∙◌, ap, length, inl, inr, Bool-cases,
}
use libdrmtap.Grab.Fast.{
  Slot, empty_slot, Event, evict_first, index_of, or_evict, or_empty, find_or_alloc_slot, is_set,
}
use libdrmtap.Grab.Fast.Frame.{slot_at}
use libdrmtap.Grab.Fast.Ledger.{AllClosed, held, Resource, Balanced, evict-Balanced}
use libdrmtap.Grab.Fast.Slots.{IsSlot, IsSlots}

record Indexed (fb_id i j : ℕ) (ss : List Slot) : Type 0 where
  offset : ℕ
  at_offset : j ≡ i + offset
  in_range : offset < length ss
  matches : (slot_at offset ss).fb_id ≡ fb_id

later-Indexed :
    (fb_id i j : ℕ) (s : Slot) (ss : List Slot)
    → Indexed fb_id (i + 1) j ss
    → Indexed fb_id i j (s ∷ ss)
later-Indexed fb_id i j s ss x = record {
  offset = suc x.offset;
  at_offset = omega (arith, x.at_offset);
  in_range = omega (arith, x.in_range);
  matches = x.matches;
}

index_of-Indexed :
    (fb_id i j : ℕ) (ss : List Slot) → index_of fb_id i ss ≡ some j → Indexed fb_id i j ss
unfolding index_of
index_of-Indexed fb_id i j [] e = absurd (cc e)
index_of-Indexed fb_id i j (s ∷ ss) e = elim (Bool-cases (s.fb_id == fb_id)) [
  | inl here ↦ record {
    offset = 0;
    at_offset = ground arith;
    in_range = omega arith;
    matches = ground arith;
  }
  | inr not_here ↦ later-Indexed fb_id i j s ss (index_of-Indexed fb_id (i + 1) j ss (ground arith))
]

-- The slot found, the slots after an eviction, and what it returned.
pub record Found (fb_id : ℕ) (ss : List Slot) (r : ℕ × List Event × List Slot) : Type 0 where
  pub slots : IsSlots r.2
  pub closed : AllClosed r.2
  pub in_range : r.0 < length r.2
  pub usable : ((slot_at r.0 r.2).fb_id ≡ fb_id) ⊎ ((slot_at r.0 r.2).fb_id ≡ 0)
  pub balanced : (w : Resource → ℕ) → Balanced w (held w ss) r.1 (held w r.2)

kept :
    (fb_id g j : ℕ) (ss : List Slot)
    → IsSlots ss
    → AllClosed ss
    → (g ≡ fb_id) ⊎ (g ≡ 0)
    → index_of g 0 ss ≡ some j
    → Found fb_id ss (j, [], ss)
kept fb_id g j ss v closed which e =
    let x = index_of-Indexed g 0 j ss e in
    let same : x.offset ≡ j = omega (arith, x.at_offset) in
    let fits : (slot_at j ss).fb_id ≡ g = subst (λ k. (slot_at k ss).fb_id ≡ g) same x.matches in
    record {
      slots = v;
      closed = closed;
      in_range = omega (arith, x.in_range, same);
      usable = elim which [ inl a ↦ inl (fits ∙ a) | inr b ↦ inr (fits ∙ b) ];
      balanced = λ w. omega arith;
    }

evicted :
    (fb_id : ℕ) (ss : List Slot) → IsSlots ss → AllClosed ss → Found fb_id ss (or_evict none ss)
unfolding evict_first
evicted fb_id [] v closed = absurd (omega (arith, v.four))
evicted fb_id (s ∷ ss) v closed = record {
  slots = record { four = v.four; each = each; one = (0, λ j e. absurd (cc (shut j, e))) };
  closed = shut;
  in_range = omega arith;
  usable = inr refl;
  balanced = λ w. evict-Balanced w (s ∷ ss);
}
  where
    each : (j : ℕ) → IsSlot (slot_at j (empty_slot ∷ ss))
    each zero = inl refl
    each (suc j) = v.each (suc j)

    shut : AllClosed (empty_slot ∷ ss)
    shut zero = refl
    shut (suc j) = closed (suc j)

or_evict-Found :
    (fb_id : ℕ) (ss : List Slot) (o : Option ℕ)
    → IsSlots ss
    → AllClosed ss
    → index_of 0 0 ss ≡ o
    → Found fb_id ss (or_evict o ss)
or_evict-Found fb_id ss (some j) v closed e = kept fb_id 0 j ss v closed (inr refl) e
or_evict-Found fb_id ss none v closed e = evicted fb_id ss v closed

or_empty-Found :
    (fb_id : ℕ) (ss : List Slot) (o : Option ℕ)
    → IsSlots ss
    → AllClosed ss
    → index_of fb_id 0 ss ≡ o
    → Found fb_id ss (or_empty o ss)
or_empty-Found fb_id ss (some j) v closed e = kept fb_id fb_id j ss v closed (inl refl) e
or_empty-Found fb_id ss none v closed e = or_evict-Found fb_id ss (index_of 0 0 ss) v closed refl

pub find-Found :
    (fb_id : ℕ) (ss : List Slot)
    → IsSlots ss
    → AllClosed ss
    → Found fb_id ss (find_or_alloc_slot fb_id ss)
unfolding find_or_alloc_slot
find-Found fb_id ss v closed = or_empty-Found fb_id ss (index_of fb_id 0 ss) v closed refl

-- A slot that is not a hit for the framebuffer is empty.
pub vacant :
    (fb_id : ℕ) (s : Slot)
    → 0 < fb_id
    → IsSlot s
    → (s.fb_id ≡ fb_id) ⊎ (s.fb_id ≡ 0)
    → ((s.fb_id == fb_id) && is_set s.mmap_ptr) ≡ false
    → s ≡ empty_slot
vacant fb_id s pos (inl e) u miss = e
vacant fb_id s pos (inr (live, p, m)) (inr z) miss = absurd (omega arith)
vacant fb_id s pos (inr (live, p, m)) (inl same) miss = absurd (clash (ap is_set m) (ground arith))
  where
    clash : is_set s.mmap_ptr ≡ true → (s.fb_id == fb_id) ≡ true → ⊥
    clash a b = ground arith
