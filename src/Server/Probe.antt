-- ===== src/Server/Probe.antt =====
-- What plane_is_primary of the helper remembers is which of the planes are primary.
use text.Mathlib.Text.{◌==◌ as str_eq}
use libdrmtap.Prelude.{
  ℕ, ◌≤◌, ◌<◌, ◌≡◌, ◌==◌, ◌&&◌, ◌||◌, Bool, true, false, if◌then◌else◌, ltb, Option, none, some,
  List, [], ◌∷◌, ◌++◌, length, length-append, refl, sym, subst, ap, ◌∙◌, inl, inr, Bool-cases,
  arith,
}
use libdrmtap.Cursor.{Properties}
use libdrmtap.Grab.Fast.Import.{among}
use libdrmtap.Grab.Target.{is_primary, is_primary_plane}
use libdrmtap.Server.{primary_cap, enter_primary, enter_listed, probe_planes}

among-append : (h id : ℕ) (ids : List ℕ) → among h (ids ++ (id ∷ [])) ≡ (among h ids || (id == h))
among-append h id [] = ground arith
among-append h id (i ∷ ids) = rw (among-append h id ids) (ground arith)

or_nothing : (a e : Bool) → a ≡ (a || (e && false))
or_nothing true e = refl
or_nothing false true = refl
or_nothing false false = refl

-- A property enters the plane if it is that of a primary plane and there is room.
abbrev entered : Bool → ℕ → List ℕ → List ℕ
entered enters id ids = if enters then ids ++ (id ∷ []) else ids

length-entered : (b : Bool) (id : ℕ) (ids : List ℕ) → length ids ≤ length (entered b id ids)
length-entered true id ids = omega (arith, length-append ids (id ∷ []))
length-entered false id ids = omega arith

length-enter :
    (ps : Properties) (id : ℕ) (ids : List ℕ) → length ids ≤ length (enter_primary ps id ids)
unfolding enter_primary
length-enter [] id ids = omega arith
length-enter (none ∷ ps) id ids = length-enter ps id ids
length-enter (some (n, v) ∷ ps) id ids =
    let b = str_eq n "type" && ((v == 1) && ltb (length ids) primary_cap) in
    omega (arith, length-enter ps id (entered b id ids), length-entered b id ids)

-- With room, what the next property adds, and what is known of the others.
among-entered :
    (s m x : Bool) (h id : ℕ) (ids : List ℕ)
    → (among h (entered (s && (m && true)) id ids) || ((id == h) && x))
      ≡ (among h ids || ((id == h) && (if s && m then true else x)))
among-entered true true x h id ids = rw (among-append h id ids) (absorb (among h ids) (id == h) x)
  where
    absorb : (a e x : Bool) → ((a || e) || (e && x)) ≡ (a || (e && true))
    absorb true e x = refl
    absorb false true x = refl
    absorb false false x = refl
among-entered true false x h id ids = refl
among-entered false m x h id ids = refl

among-enter_primary :
    (ps : Properties) (id : ℕ) (ids : List ℕ) (h : ℕ)
    → length (enter_primary ps id ids) < primary_cap
    → among h (enter_primary ps id ids) ≡ (among h ids || ((id == h) && is_primary ps))
unfolding enter_primary is_primary
among-enter_primary [] id ids h room = or_nothing (among h ids) (id == h)
among-enter_primary (none ∷ ps) id ids h room = among-enter_primary ps id ids h room
among-enter_primary (some (n, v) ∷ ps) id ids h room =
    let b = str_eq n "type" && ((v == 1) && ltb (length ids) primary_cap) in
    let open_room : ltb (length ids) primary_cap ≡ true =
      ground (arith, room, length-enter ps id (entered b id ids), length-entered b id ids) in
    among-enter_primary ps id (entered b id ids) h room
    ∙ ap
        (λ r.
          among h (entered (str_eq n "type" && ((v == 1) && r)) id ids)
          || ((id == h) && is_primary ps))
        open_room
    ∙ among-entered (str_eq n "type") (v == 1) (is_primary ps) h id ids

among-enter_listed :
    (ps : Option Properties) (id : ℕ) (ids : List ℕ) (h : ℕ)
    → length (enter_listed ps id ids) < primary_cap
    → among h (enter_listed ps id ids) ≡ (among h ids || ((id == h) && is_primary_plane ps))
among-enter_listed none id ids h room = or_nothing (among h ids) (id == h)
among-enter_listed (some ps) id ids h room = among-enter_primary ps id ids h room

length-listed :
    (ps : Option Properties) (id : ℕ) (ids : List ℕ) → length ids ≤ length (enter_listed ps id ids)
length-listed none id ids = omega arith
length-listed (some ps) id ids = length-enter ps id ids

length-probe :
    (props : ℕ → Option Properties) (l ids : List ℕ)
    → length ids ≤ length (probe_planes props l ids)
unfolding probe_planes
length-probe props [] ids = omega arith
length-probe props (p ∷ l) ids = elim (Bool-cases (ltb (length ids) primary_cap)) [
  | inl room ↦ rw room (
      omega
        (arith, length-probe props l (enter_listed (props p) p ids), length-listed (props p) p ids))
  | inr full ↦ rw full (omega arith)
]

merge :
    (a e b x y : Bool) → (e ≡ true → x ≡ y) → ((a || (e && x)) || (b && y)) ≡ (a || ((e || b) && y))
merge true e b x y same = refl
merge false true true x y same = rw (same refl) (twice y)
  where
    twice : (y : Bool) → (y || y) ≡ y
    twice true = refl
    twice false = refl
merge false true false x y same = rw (same refl) (sym (or_nothing y false))
merge false false b x y same = refl

-- Of the planes that were listed, those that are primary are remembered, if there is room for all.
pub among-probe_planes :
    (props : ℕ → Option Properties) (l ids : List ℕ) (h : ℕ)
    → length (probe_planes props l ids) < primary_cap
    → among h (probe_planes props l ids)
      ≡ (among h ids || (among h l && is_primary_plane (props h)))
unfolding probe_planes
among-probe_planes props [] ids h room = or_nothing (among h ids) false
among-probe_planes props (p ∷ l) ids h room =
    let ids' = enter_listed (props p) p ids in
    let is_open : ltb (length ids) primary_cap ≡ true =
      ground (arith, room, length-probe props (p ∷ l) ids) in
    let opens : probe_planes props (p ∷ l) ids ≡ probe_planes props l ids' = rw is_open refl in
    let room' : length (probe_planes props l ids') < primary_cap =
      subst (λ r. length r < primary_cap) opens room in
    ap (among h) opens
    ∙ among-probe_planes props l ids' h room'
    ∙ ap (λ r. r || (among h l && is_primary_plane (props h)))
        (among-enter_listed (props p) p ids h (omega (arith, length-probe props l ids', room')))
    ∙ merge (among h ids) (p == h) (among h l) (is_primary_plane (props p))
        (is_primary_plane (props h)) (λ e. ap (λ i. is_primary_plane (props i)) (ground (arith, e)))
