-- ===== src/Grab/Fast/Slots.antt =====
-- The shape of the slots: each is empty or a mapped buffer, and at most one window is open.
use libdrmtap.Prelude.{
  ℕ, zero, suc, ◌<◌, ◌≡◌, ◌⊎◌, Bool, true, false, Option, none, some, List, [], ◌∷◌, arith, refl,
  ◌∙◌, ap, set, length, length-set, inl, inr,
}
use libdrmtap.Grab.Fast.{
  mapped, Slot, empty_slot, start_at, fast_sync_close, open_at, fast_sync_begin, release_all,
  fast_cleanup,
}
use libdrmtap.Grab.Fast.Frame.{slot_at}
use libdrmtap.Grab.Fast.Call.{fresh_slots}
use libdrmtap.Grab.Fast.Ledger.{AllClosed, close-AllClosed}

abbrev pub IsSlot : Slot → Type 0
IsSlot s = (s ≡ empty_slot) ⊎ ((0 < s.fb_id) × (p : ℕ) × (s.mmap_ptr ≡ mapped p))

-- Only slot `i` may have a window open.
abbrev pub Only : ℕ → List Slot → Type 0
Only i ss = (j : ℕ) → (slot_at j ss).sync_started ≡ true → j ≡ i

pub record IsSlots (ss : List Slot) : Type 0 where
  pub four : length ss ≡ 4
  pub each : (j : ℕ) → IsSlot (slot_at j ss)
  pub one : (i : ℕ) × Only i ss

closed-Only : (i : ℕ) (ss : List Slot) → AllClosed ss → Only i ss
closed-Only i ss closed j e = absurd (cc (closed j, e))

close-IsSlot : (s : Slot) → IsSlot s → IsSlot (record s { sync_started = false })
close-IsSlot s (inl e) = inl (rw e refl)
close-IsSlot s (inr m) = inr m

close-each :
    (ss : List Slot)
    → ((j : ℕ) → IsSlot (slot_at j ss))
    → (j : ℕ) → IsSlot (slot_at j (fast_sync_close ss).1)
unfolding fast_sync_close
close-each [] each j = inl refl
close-each (s ∷ ss) each zero = close-IsSlot s (each 0)
close-each (s ∷ ss) each (suc j) = close-each ss (λ k. each (suc k)) j

length-close : (ss : List Slot) → length (fast_sync_close ss).1 ≡ length ss
unfolding fast_sync_close
length-close [] = refl
length-close (s ∷ ss) = ap suc (length-close ss)

pub close-IsSlots : (ss : List Slot) → IsSlots ss → IsSlots (fast_sync_close ss).1
close-IsSlots ss v = record {
  four = length-close ss ∙ v.four;
  each = close-each ss v.each;
  one = (0, closed-Only 0 (fast_sync_close ss).1 (close-AllClosed ss));
}

length-open : (ok : Bool) (i : ℕ) (ss : List Slot) → length (open_at ok i ss).1 ≡ length ss
unfolding open_at
length-open ok i [] = refl
length-open ok zero (s ∷ ss) = refl
length-open ok (suc i) (s ∷ ss) = ap suc (length-open ok i ss)

start-IsSlot :
    (ok : Bool) (g : Option ℕ) (s : Slot) → s.prime_fd ≡ g → IsSlot s → IsSlot (start_at ok g s).1
start-IsSlot ok none s e v = v
start-IsSlot ok (some fd) s e (inl z) = absurd (cc (e, ap (λ (t : Slot). t.prime_fd) z))
start-IsSlot true (some fd) s e (inr m) = inr m
start-IsSlot false (some fd) s e (inr m) = inr m

open-each :
    (ok : Bool) (i : ℕ) (ss : List Slot)
    → ((j : ℕ) → IsSlot (slot_at j ss))
    → (j : ℕ) → IsSlot (slot_at j (open_at ok i ss).1)
unfolding open_at
open-each ok i [] each j = each j
open-each ok zero (s ∷ ss) each zero = start-IsSlot ok s.prime_fd s refl (each 0)
open-each ok zero (s ∷ ss) each (suc j) = each (suc j)
open-each ok (suc i) (s ∷ ss) each zero = each 0
open-each ok (suc i) (s ∷ ss) each (suc j) = open-each ok i ss (λ k. each (suc k)) j

open-Only : (ok : Bool) (i : ℕ) (ss : List Slot) → AllClosed ss → Only i (open_at ok i ss).1
unfolding open_at
open-Only ok i [] closed j e = absurd (cc e)
open-Only ok zero (s ∷ ss) closed zero e = refl
open-Only ok zero (s ∷ ss) closed (suc j) e = absurd (cc (closed (suc j), e))
open-Only ok (suc i) (s ∷ ss) closed zero e = absurd (cc (closed 0, e))
open-Only ok (suc i) (s ∷ ss) closed (suc j) e =
    ap suc (open-Only ok i ss (λ k. closed (suc k)) j e)

pub begin-IsSlots :
    (ok : Bool) (i : ℕ) (ss : List Slot) → IsSlots ss → IsSlots (fast_sync_begin ok i ss).1
unfolding fast_sync_begin
begin-IsSlots ok i ss v =
    let shut = (fast_sync_close ss).1 in
    let u = close-IsSlots ss v in
    record {
      four = length-open ok i shut ∙ u.four;
      each = open-each ok i shut u.each;
      one = (i, open-Only ok i shut (close-AllClosed ss));
    }

released : (ss : List Slot) → length ss ≡ 4 → (release_all ss).1 ≡ fresh_slots
unfolding release_all
released [] e = absurd (omega arith)
released (a ∷ []) e = absurd (omega arith)
released (a ∷ b ∷ []) e = absurd (omega arith)
released (a ∷ b ∷ c ∷ []) e = absurd (omega arith)
released (a ∷ b ∷ c ∷ d ∷ []) e = refl
released (a ∷ b ∷ c ∷ d ∷ x ∷ ss) e = absurd (omega arith)

-- The teardown leaves the slots of a fresh context.
pub cleanup-fresh : (ss : List Slot) → IsSlots ss → (fast_cleanup ss).1 ≡ fresh_slots
unfolding fast_cleanup
cleanup-fresh ss v = released (fast_sync_close ss).1 (length-close ss ∙ v.four)

pub fresh-IsSlots : IsSlots fresh_slots
fresh-IsSlots = record { four = refl; each = vacant; one = (0, closed-Only 0 fresh_slots shut) }
  where
    vacant : (j : ℕ) → IsSlot (slot_at j fresh_slots)
    vacant zero = inl refl
    vacant (suc zero) = inl refl
    vacant (suc (suc zero)) = inl refl
    vacant (suc (suc (suc zero))) = inl refl
    vacant (suc (suc (suc (suc j)))) = inl refl

    shut : AllClosed fresh_slots
    shut zero = refl
    shut (suc zero) = refl
    shut (suc (suc zero)) = refl
    shut (suc (suc (suc zero))) = refl
    shut (suc (suc (suc (suc j)))) = refl

set-each :
    (i : ℕ) (s : Slot) (ss : List Slot)
    → ((j : ℕ) → IsSlot (slot_at j ss))
    → IsSlot s
    → (j : ℕ) → IsSlot (slot_at j (set ss i s))
set-each i s [] each v j = each j
set-each zero s (t ∷ ss) each v zero = v
set-each zero s (t ∷ ss) each v (suc j) = each (suc j)
set-each (suc i) s (t ∷ ss) each v zero = each 0
set-each (suc i) s (t ∷ ss) each v (suc j) = set-each i s ss (λ k. each (suc k)) v j

set-Only : (i : ℕ) (s : Slot) (ss : List Slot) → AllClosed ss → Only i (set ss i s)
set-Only i s [] closed j e = absurd (cc (closed j, e))
set-Only zero s (t ∷ ss) closed zero e = refl
set-Only zero s (t ∷ ss) closed (suc j) e = absurd (cc (closed (suc j), e))
set-Only (suc i) s (t ∷ ss) closed zero e = absurd (cc (closed 0, e))
set-Only (suc i) s (t ∷ ss) closed (suc j) e = ap suc (set-Only i s ss (λ k. closed (suc k)) j e)

pub set-IsSlots :
    (i : ℕ) (s : Slot) (ss : List Slot)
    → IsSlots ss
    → AllClosed ss
    → IsSlot s
    → IsSlots (set ss i s)
set-IsSlots i s ss v closed new = record {
  four = length-set ss i s ∙ v.four;
  each = set-each i s ss v.each new;
  one = (i, set-Only i s ss closed);
}
