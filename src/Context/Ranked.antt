-- ===== src/Context/Ranked.antt =====
-- Which device the search of drmtap_open chooses, and what drmtap_list_devices lists.
use libdrmtap.Prelude.{
  ℕ, ◌+◌, ◌≤◌, ◌<◌, ◌≡◌, Bool, true, false, if◌then◌else◌, ltb, Option, none, some, List, [], ◌∷◌,
  ◌++◌, refl, sym, ap, subst, ◌∙◌, inl, inr, Bool-cases, arith,
}
use libdrmtap.Context.{
  Scanned, Node, count_active, Device, Scan, best_active, if_better, if_active, keep_first,
  try_node, scan_nodes, settle, scan_all, listed_of,
}

-- The devices with KMS resources, in order.
unfoldable pub devices : ℕ → List Node → List Device
devices minor [] = []
devices minor (n ∷ ns) = listed_of n.fd n.crtcs minor ++ devices (minor + 1) ns

-- The first of two, unless the second drives more displays.
abbrev pub join : Option Device → Option Device → Option Device
join none e = e
join (some d) none = some d
join (some d) (some e) = if ltb d.active e.active then some e else some d

unfoldable pub first_max : List Device → Option Device
first_max [] = none
first_max (d ∷ ds) = join (some d) (first_max ds)

join_assoc : (a b c : Option Device) → join (join a b) c ≡ join a (join b c)
join_assoc none b c = refl
join_assoc (some d) none c = refl
join_assoc (some d) (some e) none = elim (Bool-cases (ltb d.active e.active)) [
  | inl less ↦ rw less refl
  | inr more ↦ rw more refl
]
join_assoc (some d) (some e) (some f) = elim (Bool-cases (ltb d.active e.active)) [
  | inl less ↦ elim (Bool-cases (ltb e.active f.active)) [
    | inl up ↦
        let far : ltb d.active f.active ≡ true = ground (arith, less, up) in rw (less, up, far) refl
    | inr down ↦ rw (less, down, less) refl
  ]
  | inr more ↦ elim (Bool-cases (ltb e.active f.active)) [
    | inl up ↦ rw (more, up) refl
    | inr down ↦
        let far : ltb d.active f.active ≡ false = ground (arith, more, down) in
        rw (more, down, far, more) refl
  ]
]

-- A best device drives displays, a fallback does not.
abbrev IsBest : Option Device → Type 0
IsBest none = Unit
IsBest (some d) = 0 < d.active

abbrev IsFallback : Option Device → Type 0
IsFallback none = Unit
IsFallback (some d) = d.active ≡ 0

abbrev or_fallback : Option Device → Option Device → Option Device
or_fallback none f = f
or_fallback (some d) f = some d

abbrev IsValid : Scan → Type 0
IsValid s = IsBest s.best × IsFallback s.fallback

abbrev pick : Scan → Option Device
pick s = or_fallback s.best s.fallback

abbrev Picks : Option Device → Scan → Type 0
Picks d s = (pick s ≡ d) × IsValid s

if_better-Picks :
    (better : Bool) (d : Device) (b f : Option Device)
    → ltb (best_active b) d.active ≡ better
    → 0 < d.active
    → IsBest b
    → IsFallback f
    → Picks
        (join (or_fallback b f) (some d))
        (if_better better d (record { best = b; fallback = f })).1
if_better-Picks true d none none e active best spare = (refl, (active, spare))
if_better-Picks true d none (some f) e active best spare =
    let less : ltb f.active d.active ≡ true = ground (arith, active, spare) in
    (rw less refl, (active, spare))
if_better-Picks true d (some b) f e active best spare = (rw e refl, (active, spare))
if_better-Picks false d none f e active best spare = absurd (ground (arith, e, active))
if_better-Picks false d (some b) f e active best spare = (rw e refl, (best, spare))

keep_first-Picks :
    (d : Device) (b f : Option Device)
    → ltb 0 d.active ≡ false
    → IsBest b
    → IsFallback f
    → Picks (join (or_fallback b f) (some d)) (keep_first f d (record { best = b; fallback = f })).1
keep_first-Picks d none none e best spare = (refl, (best, ground (arith, e)))
keep_first-Picks d (some b) none e best spare =
    let more : ltb b.active d.active ≡ false = ground (arith, e) in
    (rw more refl, (best, ground (arith, e)))
keep_first-Picks d none (some f) e best spare =
    let more : ltb f.active d.active ≡ false = ground (arith, e) in (rw more refl, (best, spare))
keep_first-Picks d (some b) (some f) e best spare =
    let more : ltb b.active d.active ≡ false = ground (arith, e) in (rw more refl, (best, spare))

if_active-Picks :
    (active : Bool) (d : Device) (s : Scan)
    → ltb 0 d.active ≡ active
    → IsValid s
    → Picks (join (pick s) (some d)) (if_active active d s).1
if_active-Picks true d s e valid =
    if_better-Picks (ltb (best_active s.best) d.active) d s.best s.fallback refl (ground (arith, e))
      valid.0 valid.1
if_active-Picks false d s e valid = keep_first-Picks d s.best s.fallback e valid.0 valid.1

join-none : (a : Option Device) → join a none ≡ a
join-none none = refl
join-none (some d) = refl

try_node-Picks :
    (fd : Option ℕ) (cs : Option (List (Option Scanned))) (minor : ℕ) (s : Scan)
    → IsValid s
    → Picks (join (pick s) (first_max (listed_of fd cs minor))) (try_node fd cs minor s).1
unfolding first_max
try_node-Picks none cs minor s valid = (sym (join-none (pick s)), valid)
try_node-Picks (some fd) none minor s valid = (sym (join-none (pick s)), valid)
try_node-Picks (some fd) (some cs) minor s valid =
    let d : Device = record { minor = minor; fd = fd; active = count_active cs } in
    if_active-Picks (ltb 0 d.active) d s refl valid

first_max-append : (ds es : List Device) → first_max (ds ++ es) ≡ join (first_max ds) (first_max es)
unfolding first_max
first_max-append [] es = refl
first_max-append (d ∷ ds) es =
    ap (join (some d)) (first_max-append ds es)
    ∙ sym (join_assoc (some d) (first_max ds) (first_max es))

scan_nodes-Picks :
    (ns : List Node) (minor : ℕ) (s : Scan)
    → IsValid s
    → Picks (join (pick s) (first_max (devices minor ns))) (scan_nodes minor ns s).1
unfolding scan_nodes devices first_max
scan_nodes-Picks [] minor s valid = (sym (join-none (pick s)), valid)
scan_nodes-Picks (n ∷ ns) minor s valid =
    let here = listed_of n.fd n.crtcs minor in
    let more = devices (minor + 1) ns in
    let step = try_node-Picks n.fd n.crtcs minor s valid in
    let rest = scan_nodes-Picks ns (minor + 1) (try_node n.fd n.crtcs minor s).1 step.1 in
    (
      rest.0
          ∙ ap (λ p. join p (first_max more)) step.0
          ∙ join_assoc (pick s) (first_max here) (first_max more)
          ∙ ap (join (pick s)) (sym (first_max-append here more)),
      rest.1,
    )

settle_pick : (s : Scan) (b : Option Device) → (settle s b).1 ≡ or_fallback b s.fallback
settle_pick s none = refl
settle_pick s (some d) = refl

scan_all_max : (ns : List Node) → (scan_all ns).1 ≡ first_max (devices 0 ns)
scan_all_max ns =
    let s = (scan_nodes 0 ns (record { best = none; fallback = none })).1 in
    settle_pick s s.best
    ∙ (scan_nodes-Picks ns 0 (record { best = none; fallback = none }) (tt, tt)).0

-- All drive fewer displays, or no more.
abbrev pub AreUnder : ℕ → List Device → Type 0
AreUnder n [] = Unit
AreUnder n (d ∷ ds) = (d.active < n) × AreUnder n ds

abbrev pub AreWithin : ℕ → List Device → Type 0
AreWithin n [] = Unit
AreWithin n (d ∷ ds) = (d.active ≤ n) × AreWithin n ds

-- The first of those that drive the most displays; none only if there is no device.
abbrev pub IsFirstMax : List Device → Option Device → Type 0
IsFirstMax ds none = ds ≡ []
IsFirstMax ds (some d) =
    (before : List Device) × (after : List Device) × (ds ≡ before ++ (d ∷ after))
    × AreUnder d.active before
    × AreWithin d.active after

within_of :
    (n : ℕ) (e : Device) (before after : List Device)
    → e.active ≤ n
    → AreUnder e.active before
    → AreWithin e.active after
    → AreWithin n (before ++ (e ∷ after))
within_of n e [] after below under within = (below, wider after within)
  where
    wider : (ds : List Device) → AreWithin e.active ds → AreWithin n ds
    wider [] w = tt
    wider (d ∷ ds) w = (omega (arith, w.0, below), wider ds w.1)
within_of n e (d ∷ before) after below under within =
    (omega (arith, under.0, below), within_of n e before after below under.1 within)

join-IsFirstMax :
    (d : Device) (ds : List Device) (m : Option Device)
    → IsFirstMax ds m
    → IsFirstMax (d ∷ ds) (join (some d) m)
join-IsFirstMax d ds none e = ([], ds, refl, tt, subst (AreWithin d.active) (sym e) tt)
join-IsFirstMax d ds (some e) (before, after, split, under, within) =
    elim (Bool-cases (ltb d.active e.active)) [
      | inl less ↦
          rw less (d ∷ before, after, ap (λ x. d ∷ x) split, (ground (arith, less), under), within)
      | inr more ↦ rw more (
        [],
        ds,
        refl,
        tt,
        subst (AreWithin d.active) (sym split)
            (within_of d.active e before after (ground (arith, more)) under within),
      )
    ]

first_max-IsFirstMax : (ds : List Device) → IsFirstMax ds (first_max ds)
unfolding first_max
first_max-IsFirstMax [] = refl
first_max-IsFirstMax (d ∷ ds) = join-IsFirstMax d ds (first_max ds) (first_max-IsFirstMax ds)

-- The device that the search comes to is the first of those with KMS resources that drive the most
-- displays, which may be none, and there is no device only if no node can be opened and has such
-- resources.
pub scan_all-IsFirstMax : (ns : List Node) → IsFirstMax (devices 0 ns) (scan_all ns).1
scan_all-IsFirstMax ns =
    subst (IsFirstMax (devices 0 ns)) (sym (scan_all_max ns)) (first_max-IsFirstMax (devices 0 ns))
