-- ===== src/Context/Render.antt =====
-- The render node that drmtap_open_render prefers, by what sysfs says (src/drmtap.c).
use libdrmtap.Prelude.{
  ℕ, ◌≤◌, ◌<◌, ◌≡◌, ◌⊎◌, ◌==◌, ◌&&◌, Bool, true, false, if◌then◌else◌, ltb, leb, Option, none, some,
  List, [], ◌∷◌, refl, sym, subst, inl, inr, Bool-cases, arith,
}

-- What the names and files of /sys/class/drm say: a connector of a card, whether its status is
-- `connected` and whether it is `enabled`; a render node and the card of its device, if there is one.
pub data Entry : Type 0 where
  connector : ℕ → Bool → Bool → Entry
  render : ℕ → Option ℕ → Entry

-- card_output_rank: the loop ends at a connector that scans out.
unfoldable pub rank_from : ℕ → List Entry → ℕ → ℕ
rank_from card [] rank = rank
rank_from card (render m c ∷ es) rank = rank_from card es rank
rank_from card (connector c connected enabled ∷ es) rank =
    let later = rank_from card es in
    if (c == card) && connected
    then if enabled then 2 else later (if ltb rank 1 then 1 else rank)
    else later rank

abbrev pub card_output_rank : List Entry → ℕ → ℕ
card_output_rank dir card = rank_from card dir 0

-- The best render node so far with its rank.
abbrev pub best_rank : Option (ℕ × ℕ) → ℕ
best_rank none = 0
best_rank (some (m, rank)) = rank

-- pick_scanout_render_node: nothing can outrank a card that scans out.
abbrev pub weigh_node : ℕ → ℕ → (Option (ℕ × ℕ) → Option (ℕ × ℕ)) → Option (ℕ × ℕ) → Option (ℕ × ℕ)
weigh_node m rank later best =
    if ltb (best_rank best) rank
    then if leb 2 rank then some (m, rank) else later (some (m, rank))
    else later best

unfoldable pub pick_from : List Entry → List Entry → Option (ℕ × ℕ) → Option (ℕ × ℕ)
pick_from dir [] best = best
pick_from dir (connector c connected enabled ∷ es) best = pick_from dir es best
pick_from dir (render m none ∷ es) best = pick_from dir es best
pick_from dir (render m (some card) ∷ es) best =
    weigh_node m (card_output_rank dir card) (pick_from dir es) best

unfoldable pub pick_scanout_render_node : List Entry → Option (ℕ × ℕ)
pick_scanout_render_node dir = pick_from dir dir none

-- The ranks, described without a loop: 2 for a card with a connector that is connected and enabled.
abbrev pub ScansOut : ℕ → List Entry → Type 0
ScansOut card [] = ⊥
ScansOut card (render m c ∷ es) = ScansOut card es
ScansOut card (connector c connected enabled ∷ es) =
    ((c ≡ card) × (connected ≡ true) × (enabled ≡ true)) ⊎ ScansOut card es

upto_step :
    (hit enabled : Bool) (later : ℕ → ℕ) (rank : ℕ)
    → rank ≤ 2
    → ((r : ℕ) → r ≤ 2 → later r ≤ 2)
    → (if hit then if enabled then 2 else later (if ltb rank 1 then 1 else rank) else later rank)
      ≤ 2
upto_step true true later rank small ih = omega arith
upto_step true false later rank small ih = ih (if ltb rank 1 then 1 else rank) (ground arith)
upto_step false enabled later rank small ih = ih rank small

rank_from_upto : (card : ℕ) (es : List Entry) (rank : ℕ) → rank ≤ 2 → rank_from card es rank ≤ 2
unfolding rank_from
rank_from_upto card [] rank small = small
rank_from_upto card (render m c ∷ es) rank small = rank_from_upto card es rank small
rank_from_upto card (connector c connected enabled ∷ es) rank small =
    upto_step ((c == card) && connected) enabled (rank_from card es) rank small
      (rank_from_upto card es)

scans_step :
    (hit enabled : Bool) (later : ℕ → ℕ) (rank : ℕ)
    → ((r : ℕ) → later r ≡ 2)
    → (if hit then if enabled then 2 else later (if ltb rank 1 then 1 else rank) else later rank)
      ≡ 2
scans_step true true later rank ih = refl
scans_step true false later rank ih = ih (if ltb rank 1 then 1 else rank)
scans_step false enabled later rank ih = ih rank

scans_rank : (card : ℕ) (es : List Entry) (rank : ℕ) → ScansOut card es → rank_from card es rank ≡ 2
unfolding rank_from
scans_rank card [] rank s = absurd s
scans_rank card (render m c ∷ es) rank s = scans_rank card es rank s
scans_rank card (connector c connected enabled ∷ es) rank (inl (same, conn, on)) =
    let hit : (c == card) ≡ true = ground (arith, same) in rw (hit, conn, on) refl
scans_rank card (connector c connected enabled ∷ es) rank (inr s) =
    scans_step ((c == card) && connected) enabled (rank_from card es) rank
      (λ r. scans_rank card es r s)

rank_step :
    {A : Type 0} (hit enabled : Bool) (later : ℕ → ℕ) (rank : ℕ)
    → rank ≤ 1
    → (hit ≡ true → enabled ≡ true → A)
    → ((r : ℕ) → r ≤ 1 → 2 ≤ later r → A)
    → 2
      ≤ (if hit then if enabled then 2 else later (if ltb rank 1 then 1 else rank) else later rank)
    → A
rank_step true true later rank small here ih two = here refl refl
rank_step true false later rank small here ih two =
    ih (if ltb rank 1 then 1 else rank) (ground arith) two
rank_step false enabled later rank small here ih two = ih rank small two

rank-ScansOut :
    (card : ℕ) (es : List Entry) (rank : ℕ)
    → rank ≤ 1
    → 2 ≤ rank_from card es rank
    → ScansOut card es
unfolding rank_from
rank-ScansOut card [] rank small two = absurd (omega (arith, small, two))
rank-ScansOut card (render m c ∷ es) rank small two = rank-ScansOut card es rank small two
rank-ScansOut card (connector c connected enabled ∷ es) rank small two =
    rank_step ((c == card) && connected) enabled (rank_from card es) rank small
      (λ hit on. inl (ground (arith, hit), ground (arith, hit), on))
      (λ r below up. inr (rank-ScansOut card es r below up)) two

-- No render node among the entries has a card of a higher rank.
abbrev pub AreOutranked : ℕ → List Entry → List Entry → Type 0
AreOutranked n dir [] = Unit
AreOutranked n dir (render m (some card) ∷ es) =
    (card_output_rank dir card ≤ n) × AreOutranked n dir es
AreOutranked n dir (_ ∷ es) = AreOutranked n dir es

-- The node is one of them, with the rank of its card.
abbrev pub IsNodeOf : List Entry → ℕ → ℕ → List Entry → Type 0
IsNodeOf dir m rank [] = ⊥
IsNodeOf dir m rank (render n (some card) ∷ es) =
    ((m ≡ n) × (rank ≡ card_output_rank dir card)) ⊎ IsNodeOf dir m rank es
IsNodeOf dir m rank (_ ∷ es) = IsNodeOf dir m rank es

-- Where a best node came from: it was there before, or it is one of the entries.
abbrev pub IsFrom : List Entry → Option (ℕ × ℕ) → List Entry → Option (ℕ × ℕ) → Type 0
IsFrom dir best es none = best ≡ none
IsFrom dir best es (some (m, rank)) =
    (best ≡ some (m, rank)) ⊎ ((0 < rank) × IsNodeOf dir m rank es)

abbrev pub Outranks : List Entry → Option (ℕ × ℕ) → List Entry → Option (ℕ × ℕ) → Type 0
Outranks dir best es r =
    (best_rank best ≤ best_rank r) × AreOutranked (best_rank r) dir es × IsFrom dir best es r

module _ (dir : List Entry) where
  all-AreOutranked : (es : List Entry) → AreOutranked 2 dir es
  all-AreOutranked [] = tt
  all-AreOutranked (connector c connected enabled ∷ es) = all-AreOutranked es
  all-AreOutranked (render m none ∷ es) = all-AreOutranked es
  all-AreOutranked (render m (some card) ∷ es) =
      (rank_from_upto card dir 0 (omega arith), all-AreOutranked es)

  of_self : (es : List Entry) (best : Option (ℕ × ℕ)) → IsFrom dir best es best
  of_self es none = refl
  of_self es (some (m, rank)) = inl refl

  -- What came from the rest came from the whole.
  of_rest :
      (m card : ℕ) (es : List Entry) (best r : Option (ℕ × ℕ))
      → IsFrom dir best es r
      → IsFrom dir best (render m (some card) ∷ es) r
  of_rest m card es best none e = e
  of_rest m card es best (some (n, rank)) (inl e) = inl e
  of_rest m card es best (some (n, rank)) (inr (positive, node)) = inr (positive, inr node)

  -- A node that became the best is one of the entries.
  of_new :
      (m card : ℕ) (es : List Entry) (best r : Option (ℕ × ℕ))
      → 0 < card_output_rank dir card
      → IsFrom dir (some (m, card_output_rank dir card)) es r
      → IsFrom dir best (render m (some card) ∷ es) r
  of_new m card es best none positive e = absurd (cc e)
  of_new m card es best (some (n, rank)) positive (inl e) =
      let same_node : m ≡ n = cc e in
      let same_rank : card_output_rank dir card ≡ rank = cc e in
      inr (omega (arith, positive, same_rank), inl (sym same_node, sym same_rank))
  of_new m card es best (some (n, rank)) positive (inr (up, node)) = inr (up, inr node)

  -- The three ways that a node is weighed.
  is_top :
      (m rank : ℕ) (later : Option (ℕ × ℕ) → Option (ℕ × ℕ)) (best : Option (ℕ × ℕ))
      → ltb (best_rank best) rank ≡ true
      → leb 2 rank ≡ true
      → weigh_node m rank later best ≡ some (m, rank)
  is_top m rank later best better top = rw (better, top) refl

  is_better :
      (m rank : ℕ) (later : Option (ℕ × ℕ) → Option (ℕ × ℕ)) (best : Option (ℕ × ℕ))
      → ltb (best_rank best) rank ≡ true
      → leb 2 rank ≡ false
      → weigh_node m rank later best ≡ later (some (m, rank))
  is_better m rank later best better more = rw (better, more) refl

  is_worse :
      (m rank : ℕ) (later : Option (ℕ × ℕ) → Option (ℕ × ℕ)) (best : Option (ℕ × ℕ))
      → ltb (best_rank best) rank ≡ false
      → weigh_node m rank later best ≡ later best
  is_worse m rank later best worse = rw worse refl

  weigh_node-Outranks :
      (m card : ℕ) (es : List Entry) (best : Option (ℕ × ℕ))
      → ((b : Option (ℕ × ℕ)) → Outranks dir b es (pick_from dir es b))
      → Outranks dir best
          (render m (some card) ∷ es)
          (weigh_node m (card_output_rank dir card) (pick_from dir es) best)
  weigh_node-Outranks m card es best ih =
      let k = card_output_rank dir card in
      let below = rank_from_upto card dir 0 (omega arith) in
      let all = render m (some card) ∷ es in
      let later = pick_from dir es in
      elim (Bool-cases (ltb (best_rank best) k)) [
        | inl better ↦ elim (Bool-cases (leb 2 k)) [
          | inl top ↦
              let two : 2 ≡ k = ground (arith, top, below) in
              subst (Outranks dir best all) (sym (is_top m k later best better top)) (
                ground (arith, better),
                (omega arith, subst (λ n. AreOutranked n dir es) two (all-AreOutranked es)),
                inr (ground (arith, better), inl (refl, refl)),
              )
          | inr more ↦
              let (up, out, from) = ih (some (m, k)) in
              subst (Outranks dir best all) (sym (is_better m k later best better more)) (
                ground (arith, better, up),
                (up, out),
                of_new m card es best (later (some (m, k))) (ground (arith, better)) from,
              )
        ]
        | inr worse ↦
            let (up, out, from) = ih best in
            subst (Outranks dir best all) (sym (is_worse m k later best worse))
              (up, (ground (arith, worse, up), out), of_rest m card es best (later best) from)
      ]

  pick_from-Outranks :
      (es : List Entry) (best : Option (ℕ × ℕ)) → Outranks dir best es (pick_from dir es best)
  unfolding pick_from
  pick_from-Outranks [] best = (omega arith, tt, of_self [] best)
  pick_from-Outranks (connector c connected enabled ∷ es) best = pick_from-Outranks es best
  pick_from-Outranks (render m none ∷ es) best = pick_from-Outranks es best
  pick_from-Outranks (render m (some card) ∷ es) best =
      weigh_node-Outranks m card es best (pick_from-Outranks es)

-- The preferred render node is one of those listed, with the rank of its card, which is not 0, and no
-- listed render node has a card of a higher rank; if none is preferred, every card of a render node
-- ranks 0. A card ranks 2, the highest, exactly if one of its connectors is connected and enabled.
pub pick_scanout_render_node-Outranks :
    (dir : List Entry)
    → Outranks dir none dir (pick_scanout_render_node dir)
      × ((card : ℕ)
          → (ScansOut card dir → card_output_rank dir card ≡ 2)
            × (2 ≤ card_output_rank dir card → ScansOut card dir))
unfolding pick_scanout_render_node
pick_scanout_render_node-Outranks dir = (
  pick_from-Outranks dir dir none,
  λ card. (scans_rank card dir 0, rank-ScansOut card dir 0 (omega arith)),
)
