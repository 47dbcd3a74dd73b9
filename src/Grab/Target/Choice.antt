-- ===== src/Grab/Target/Choice.antt =====
-- Which plane is captured, by the library and by the helper.
use libdrmtap.Prelude.{
  ℕ, ◌≡◌, ◌≢◌, ◌==◌, ◌&&◌, Bool, true, false, if◌then◌else◌, Option, none, some, List, [], ◌∷◌,
  refl, ◌∙◌, inl, inr, Bool-cases, arith,
}
use libdrmtap.Cursor.{Properties}
use libdrmtap.Grab.Target.{PlaneState, is_primary_plane, is_bound, search_primary}

-- The first plane that passes a test.
abbrev pub first_where : (PlaneState → Bool) → List (Option PlaneState) → Option PlaneState
first_where f [] = none
first_where f (none ∷ ps) = first_where f ps
first_where f (some p ∷ ps) = let later = first_where f ps in if f p then some p else later

abbrev pub or_else : Option PlaneState → Option PlaneState → Option PlaneState
or_else none q = q
or_else (some p) q = some p

-- The reference: the first primary plane of the CRTC that has a framebuffer, or else the first plane.
abbrev pub preferred : ℕ → (ℕ → Option Properties) → List (Option PlaneState) → Option PlaneState
preferred target props ps =
    or_else (first_where (λ p. is_bound target p && is_primary_plane (props p.plane_id)) ps)
      (first_where (is_bound target) ps)

abbrev pub id_of : Option PlaneState → ℕ
id_of none = 0
id_of (some p) = p.plane_id

abbrev pub fb_of : Option PlaneState → ℕ
fb_of none = 0
fb_of (some p) = p.fb_id

-- The kernel numbers its objects from 1.
abbrev pub AreNamed : List (Option PlaneState) → Type 0
AreNamed [] = Unit
AreNamed (none ∷ ps) = AreNamed ps
AreNamed (some p ∷ ps) = (p.plane_id ≢ 0) × AreNamed ps

-- What a search comes to that has a result already, 0 for none.
abbrev pub settled : (Option PlaneState → ℕ) → Option PlaneState → ℕ → Option PlaneState → ℕ
settled value (some p) result q = value (some p)
settled value none result q = if result == 0 then value q else result

-- A plane that comes first takes the place of no plane.
pub settled-first :
    (value : Option PlaneState → ℕ) (best q : Option PlaneState) (p : PlaneState) (result : ℕ)
    → value (some p) ≢ 0
    → settled value best (if result == 0 then value (some p) else result) q
      ≡ settled value best result (some p)
settled-first value (some b) q p result positive = refl
settled-first value none q p result positive = elim (Bool-cases (result == 0)) [
  | inl fresh ↦ rw fresh (ground arith)
  | inr kept ↦ rw (kept, kept) refl
]

primary_step :
    (b m : Bool) (p : PlaneState) (later : ℕ → ℕ) (result : ℕ) (best q : Option PlaneState)
    → p.plane_id ≢ 0
    → ((r : ℕ) → later r ≡ settled id_of best r q)
    → (if b
        then if m
          then if p.plane_id == 0 then later 0 else p.plane_id
          else later (if result == 0 then p.plane_id else result)
        else later result)
      ≡ settled id_of (if b && m then some p else best) result (if b then some p else q)
primary_step true true p later result best q named ih = ground arith
primary_step true false p later result best q named ih =
    ih (if result == 0 then p.plane_id else result) ∙ settled-first id_of best q p result named
primary_step false m p later result best q named ih = ih result

module _ (target : ℕ) (props : ℕ → Option Properties) where
  pub search_primary-settled :
      (ps : List (Option PlaneState)) (result : ℕ)
      → AreNamed ps
      → search_primary target props ps result
        ≡ settled id_of
            (first_where (λ p. is_bound target p && is_primary_plane (props p.plane_id)) ps)
            result
            (first_where (is_bound target) ps)
  unfolding search_primary
  search_primary-settled [] result named = ground arith
  search_primary-settled (none ∷ ps) result named = search_primary-settled ps result named
  search_primary-settled (some p ∷ ps) result named =
      primary_step (is_bound target p) (is_primary_plane (props p.plane_id)) p
        (search_primary target props ps) result
        (first_where (λ p. is_bound target p && is_primary_plane (props p.plane_id)) ps)
        (first_where (is_bound target) ps) named.0 (λ r. search_primary-settled ps r named.1)

pub settled_fresh :
    (value : Option PlaneState → ℕ) (best q : Option PlaneState)
    → settled value best 0 q ≡ value (or_else best q)
settled_fresh value none q = refl
settled_fresh value (some p) q = refl
