-- ===== src/Grab/Target/Remembered.antt =====
-- The remembered id of the rotation property gives what a look by name would give.
use Prim.Native.String.{String}
use text.Mathlib.Text.{◌==◌ as str_eq}
use libdrmtap.Prelude.{
  ℕ, ◌≡◌, ◌≢◌, ◌==◌, Bool, true, false, if◌then◌else◌, u32, Option, none, some, List, [], ◌∷◌, refl,
  sym, subst, ap, ◌∙◌, inl, inr, Bool-cases, arith,
}
use libdrmtap.Errno.{Ret, ok, err, enotsup}
use libdrmtap.Grab.Target.{Kernel}
use libdrmtap.Grab.Target.Rotation.{
  RotState, pending, remembered, absent, Context, Property, Lookup, found, missing, named, by_name,
  by_id, rebind, looked_up, at_id, by_state, plane_of, plane_rotation,
}

-- The properties that a plane has: ids with their names.
abbrev pub Table : Type 0
Table = List (ℕ × String)

-- The properties read now are those, and all names could be read.
abbrev pub Conforms : List Property → Table → Type 0
Conforms [] [] = Unit
Conforms (p ∷ ps) ((i, n) ∷ t) = (p.id ≡ i) × (p.name ≡ ok n) × Conforms ps t
Conforms _ _ = ⊥

abbrev pub IsFresh : ℕ → Table → Type 0
IsFresh i [] = Unit
IsFresh i ((j, n) ∷ t) = (i ≢ j) × IsFresh i t

abbrev pub AreUnique : Table → Type 0
AreUnique [] = Unit
AreUnique ((i, n) ∷ t) = IsFresh i t × AreUnique t

unfoldable pub rotation_id : Table → Option ℕ
rotation_id [] = none
rotation_id ((i, n) ∷ t) =
    let later = rotation_id t in if str_eq n "rotation" then some i else later

-- What is remembered of the plane is true of it.
abbrev pub Recalls : RotState → ℕ → Option ℕ → Type 0
Recalls pending id r = Unit
Recalls remembered id r = r ≡ some id
Recalls absent id r = r ≡ none

abbrev pub IsCoherent : (ℕ → Table) → Context → Type 0
IsCoherent T c = Recalls c.rot_prop_state c.rot_prop_id (rotation_id (T c.rot_prop_plane_id))

-- What a look by name answers.
abbrev pub named_answer : Lookup → Ret ℕ
named_answer (found id v) = ok (u32 v)
named_answer (missing none) = err enotsup
named_answer (missing (some e)) = err e

-- What a lookup comes to: by name and by id alike.
abbrev pub Agrees : List Property → Option ℕ → Type 0
Agrees ps none = by_name ps none ≡ missing none
Agrees ps (some id) = (v : ℕ) × (by_name ps none ≡ found id v) × (by_id id ps ≡ some v)

fresh_step :
    (b : Bool) (i j id : ℕ) (later : Option ℕ)
    → i ≢ j
    → (later ≡ some id → i ≢ id)
    → (if b then some j else later) ≡ some id
    → i ≢ id
fresh_step true i j id later ne rest e same = ne (cc (e, same))
fresh_step false i j id later ne rest e same = rest e same

fresh_rotation : (i : ℕ) (t : Table) (id : ℕ) → IsFresh i t → rotation_id t ≡ some id → i ≢ id
unfolding rotation_id
fresh_rotation i [] id fresh e = absurd (cc e)
fresh_rotation i ((j, n) ∷ t) id fresh e =
    fresh_step (str_eq n "rotation") i j id (rotation_id t) fresh.0 (fresh_rotation i t id fresh.1)
      e

agree_step :
    (b : Bool) (p : Property) (ps : List Property) (i : ℕ) (later : Option ℕ)
    → by_name (p ∷ ps) none ≡ (if b then found p.id p.value else by_name ps none)
    → p.id ≡ i
    → ((id : ℕ) → later ≡ some id → i ≢ id)
    → Agrees ps later
    → Agrees (p ∷ ps) (if b then some i else later)
unfolding by_id
agree_step true p ps i later e same fresh agrees =
    let hit : (p.id == i) ≡ true = ground (arith, same) in
    (p.value, e ∙ ap (λ x. found x p.value) same, rw hit refl)
agree_step false p ps i none e same fresh agrees = e ∙ agrees
agree_step false p ps i (some id) e same fresh agrees =
    let other = fresh id refl in
    let miss : (p.id == id) ≡ false = ground (arith, same, other) in
    (agrees.0, e ∙ agrees.1, rw miss agrees.2)

Conforms-Agrees :
    (ps : List Property) (t : Table) → Conforms ps t → AreUnique t → Agrees ps (rotation_id t)
unfolding by_name rotation_id
Conforms-Agrees [] [] same unique = refl
Conforms-Agrees [] (x ∷ t) same unique = absurd same
Conforms-Agrees (p ∷ ps) [] same unique = absurd same
Conforms-Agrees (p ∷ ps) ((i, n) ∷ t) (same_id, same_name, rest) (fresh, unique) =
    agree_step (str_eq n "rotation") p ps i (rotation_id t)
      (ap (λ r. named r p (by_name ps) none) same_name) same_id
      (λ id e. fresh_rotation i t id fresh e) (Conforms-Agrees ps t rest unique)

-- The answer is that of a look by name now, and what is remembered stays true.
abbrev pub Answers : (ℕ → Table) → List Property → Ret ℕ × Context → Type 0
Answers T ps r = (r.0 ≡ named_answer (by_name ps none)) × IsCoherent T r.1

module _ (T : ℕ → Table) (ps : List Property) where
  looked_up-Answers :
      (r : Option ℕ) (c : Context)
      → rotation_id (T c.rot_prop_plane_id) ≡ r
      → Agrees ps r
      → Answers T ps (looked_up (by_name ps none) c)
  looked_up-Answers none c e agrees = rw agrees (refl, e)
  looked_up-Answers (some id) c e agrees = rw (agrees.1) (refl, e)

  at_id-Answers :
      (r : Option ℕ) (c : Context)
      → Agrees ps r
      → IsCoherent T c
      → r ≡ some c.rot_prop_id
      → Answers T ps (at_id (by_id c.rot_prop_id ps) c)
  at_id-Answers none c agrees coherent is = absurd (cc is)
  at_id-Answers (some id) c agrees coherent is =
      let here = subst (λ i. by_id i ps ≡ some agrees.0) (the_same id c.rot_prop_id is) agrees.2 in
      rw (here, agrees.1) (refl, coherent)
    where
      the_same : (i j : ℕ) → some i ≡ some j → i ≡ j
      the_same i j e = cc e

  by_state-Answers :
      (s : RotState) (c : Context)
      → c.rot_prop_state ≡ s
      → Recalls s c.rot_prop_id (rotation_id (T c.rot_prop_plane_id))
      → Agrees ps (rotation_id (T c.rot_prop_plane_id))
      → IsCoherent T c
      → Answers T ps (by_state s (ok ps) c)
  by_state-Answers pending c e recalls agrees coherent =
      looked_up-Answers (rotation_id (T c.rot_prop_plane_id)) c refl agrees
  by_state-Answers remembered c e recalls agrees coherent =
      at_id-Answers (rotation_id (T c.rot_prop_plane_id)) c agrees coherent recalls
  by_state-Answers absent c e recalls agrees coherent =
      let none_there : by_name ps none ≡ missing none = subst (Agrees ps) recalls agrees in
      (ap named_answer (sym none_there), coherent)

  rebind-IsCoherent : (c : Context) (plane : ℕ) → IsCoherent T c → IsCoherent T (rebind c plane)
  unfolding rebind
  rebind-IsCoherent c plane coherent = elim (Bool-cases (plane == c.rot_prop_plane_id)) [
    | inl same ↦ rw same coherent
    | inr other ↦ rw other tt
  ]

  rebind_plane : (c : Context) (plane : ℕ) → (rebind c plane).rot_prop_plane_id ≡ plane
  unfolding rebind
  rebind_plane c plane = elim (Bool-cases (plane == c.rot_prop_plane_id)) [
    | inl same ↦ rw same (ground (arith, same))
    | inr other ↦ rw other refl
  ]

  bound-Answers :
      (c : Context)
      → Agrees ps (rotation_id (T c.rot_prop_plane_id))
      → IsCoherent T c
      → Answers T ps (by_state c.rot_prop_state (ok ps) c)
  bound-Answers c agrees coherent =
      by_state-Answers c.rot_prop_state c refl coherent agrees coherent

-- Where the plane has properties with ids of their own, its list can be read with all their names, and
-- what is remembered of the plane is true: the rotation is the value that the property of that name has
-- now, or -ENOTSUP if the plane has none, whether it was looked up by name or by the id that an earlier
-- call left; and what is remembered afterwards is true of the plane.
pub plane_rotation_lem :
    (T : ℕ → Table) (k : Kernel) (props : ℕ → Ret (List Property)) (ps : List Property)
    (c : Context)
    → AreUnique (T (plane_of k c).0)
    → props (plane_of k c).0 ≡ ok ps
    → Conforms ps (T (plane_of k c).0)
    → (plane_of k c).0 ≢ 0
    → IsCoherent T c
    → Answers T ps (plane_rotation false k props c)
unfolding plane_rotation
plane_rotation_lem T k props ps c unique given same bound coherent =
    let (plane, crtc) = plane_of k c in
    let c' : Context = record c { crtc_id = crtc } in
    let d = rebind c' plane in
    let idle : (plane == 0) ≡ false = ground (arith, bound) in
    rw (idle, given)
      (bound-Answers T ps d
        (subst (λ p. Agrees ps (rotation_id (T p))) (sym (rebind_plane T ps c' plane))
          (Conforms-Agrees ps (T plane) same unique))
        (rebind-IsCoherent T ps c' plane coherent))
