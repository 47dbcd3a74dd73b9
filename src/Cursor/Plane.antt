-- ===== src/Cursor/Plane.antt =====
-- Which plane find_cursor_plane chooses.
use libdrmtap.Prelude.{
  ℕ, zero, suc, ◌<◌, ◌≡◌, ◌⊎◌, ◌&&◌, Bool, true, Option, none, some, List, [], ◌∷◌, get_elem?, refl,
  inl, inr, subst, Bool-cases, arith,
}
use libdrmtap.Cursor.{
  Properties, get_property_value, PlaneInfo, is_cursor_type, crtc_ok, first_cursor,
}

-- A readable plane that drives the target and is of the cursor type.
abbrev pub Serves : ℕ → (ℕ → Option Properties) → Option PlaneInfo → Type 0
Serves target props none = ⊥
Serves target props (some p) =
    (crtc_ok target p.crtc_id ≡ true)
    × (is_cursor_type (get_property_value "type" (props p.plane_id)) ≡ true)

-- The planes before index `n` do not serve.
abbrev pub NoneBefore : ℕ → (ℕ → Option Properties) → List (Option PlaneInfo) → ℕ → Type 0
NoneBefore target props ps n =
    (i : ℕ) (p : Option PlaneInfo) → i < n → get_elem? ps i ≡ some p → ¬ Serves target props p

pub record First (target : ℕ) (props : ℕ → Option Properties) (ps : List (Option PlaneInfo))
    (id : ℕ) : Type 0 where
  pub index : ℕ
  pub plane : PlaneInfo
  pub found : get_elem? ps index ≡ some (some plane)
  pub same : plane.plane_id ≡ id
  pub serves : Serves target props (some plane)
  pub before : NoneBefore target props ps index

-- The chosen plane is the first that serves; there is none, 0, only if no plane does.
abbrev pub Choice : ℕ → (ℕ → Option Properties) → List (Option PlaneInfo) → ℕ → Type 0
Choice target props ps id =
    First target props ps id
    ⊎ ((id ≡ 0)
        × ((i : ℕ) (p : Option PlaneInfo) → get_elem? ps i ≡ some p → ¬ Serves target props p))

both : {a b : Bool} → a ≡ true → b ≡ true → (a && b) ≡ true
both p q = ground (arith, p, q)

module _ (target : ℕ) (props : ℕ → Option Properties) where
  -- Past a plane that does not serve.
  past :
      (q : Option PlaneInfo) (ps : List (Option PlaneInfo)) (n : ℕ)
      → ¬ Serves target props q
      → NoneBefore target props ps n
      → NoneBefore target props (q ∷ ps) (suc n)
  past q ps n unfit rest zero p below e s = unfit (subst (Serves target props) (cc e) s)
  past q ps n unfit rest (suc i) p below e s = rest i p (omega arith) e s

  past_all :
      (q : Option PlaneInfo) (ps : List (Option PlaneInfo))
      → ¬ Serves target props q
      → ((i : ℕ) (p : Option PlaneInfo) → get_elem? ps i ≡ some p → ¬ Serves target props p)
      → (i : ℕ) (p : Option PlaneInfo) → get_elem? (q ∷ ps) i ≡ some p
      → ¬ Serves target props p
  past_all q ps unfit rest zero p e s = unfit (subst (Serves target props) (cc e) s)
  past_all q ps unfit rest (suc i) p e s = rest i p e s

  skip :
      (q : Option PlaneInfo) (ps : List (Option PlaneInfo)) (id : ℕ)
      → ¬ Serves target props q
      → Choice target props ps id
      → Choice target props (q ∷ ps) id
  skip q ps id unfit (inl f) = inl (record {
    index = suc f.index;
    plane = f.plane;
    found = f.found;
    same = f.same;
    serves = f.serves;
    before = past q ps f.index unfit f.before;
  })
  skip q ps id unfit (inr (z, all)) = inr (z, past_all q ps unfit all)

  pub first_cursor-Choice :
      (ps : List (Option PlaneInfo)) → Choice target props ps (first_cursor target props ps)
  unfolding first_cursor
  first_cursor-Choice [] = inr (refl, λ i p e. absurd (cc e))
  first_cursor-Choice (none ∷ ps) = skip none ps _ (λ s. s) (first_cursor-Choice ps)
  first_cursor-Choice (some p ∷ ps) =
      let crtc = crtc_ok target p.crtc_id in
      let kind = is_cursor_type (get_property_value "type" (props p.plane_id)) in
      elim (Bool-cases (crtc && kind)) [
        | inl serves ↦ rw serves (
            inl (record {
              index = 0;
              plane = p;
              found = refl;
              same = refl;
              serves = (ground (arith, serves), ground (arith, serves));
              before = λ i q below. absurd (omega arith);
            }))
        | inr unfit ↦
            rw unfit
              (skip (some p) ps _ (λ s. absurd (cc (unfit, both s.0 s.1))) (first_cursor-Choice ps))
      ]
