-- ===== src/Server/SamePlane.antt =====
-- The helper captures the plane that the library captures.
use libdrmtap.Prelude.{
  ℕ, ◌<◌, ◌≡◌, ◌≢◌, ◌==◌, ◌&&◌, ◌||◌, Bool, true, false, if◌then◌else◌, Option, none, some, List,
  [], ◌∷◌, length, refl, ap, ◌∙◌, arith,
}
use libdrmtap.Cursor.{Properties}
use libdrmtap.Grab.Fast.Import.{among}
use libdrmtap.Grab.Target.{PlaneState, is_primary_plane, is_bound, search_primary}
use libdrmtap.Grab.Target.Choice.{
  first_where, preferred, id_of, fb_of, AreNamed, settled, settled-first, settled_fresh,
  search_primary-settled,
}
use libdrmtap.Server.{
  Planes, Found, primary_cap, primary_ids_of, probe_planes, plane_is_primary, is_candidate,
  take_plane, first_or, search_planes,
}
use libdrmtap.Server.Probe.{among-probe_planes}

-- The ids that the helper keeps tell the primary planes.
abbrev pub AreKnown : List ℕ → (ℕ → Option Properties) → List (Option PlaneState) → Type 0
AreKnown ids props [] = Unit
AreKnown ids props (none ∷ ps) = AreKnown ids props ps
AreKnown ids props (some p ∷ ps) =
    (among p.plane_id ids ≡ is_primary_plane (props p.plane_id)) × AreKnown ids props ps

-- With a target, the helper looks at the same planes.
is_candidate_bound :
    (target : ℕ) (p : PlaneState) → target ≢ 0 → is_candidate target p ≡ is_bound target p
is_candidate_bound target p named = ground arith

bound_fb : (target : ℕ) (p : PlaneState) → is_bound target p ≡ true → p.fb_id ≢ 0
bound_fb target p e = ground (arith, e)

first_or_fb :
    (b : Bool) (p : PlaneState) (ids : List ℕ) (f : Found)
    → (first_or b p ids f).fb_id ≡ (if b then p.fb_id else f.fb_id)
first_or_fb true p ids f = refl
first_or_fb false p ids f = refl

first_or_kept :
    (b : Bool) (p : PlaneState) (ids : List ℕ) (f : Found) → (first_or b p ids f).kept ≡ some ids
first_or_kept true p ids f = refl
first_or_kept false p ids f = refl

module _ (s : Planes) (ids : List ℕ) where
  fb_step :
      (b m : Bool) (p : PlaneState) (f : Found) (later : Found → Found) (best q : Option PlaneState)
      → (b ≡ true → p.fb_id ≢ 0)
      → primary_ids_of f.kept s ≡ ids
      → ((g : Found)
          → primary_ids_of g.kept s ≡ ids
          → (later g).fb_id ≡ settled fb_of best g.fb_id q)
      → (if b
          then if m then take_plane p ids else later (first_or (f.fb_id == 0) p ids f)
          else later f).fb_id
        ≡ settled fb_of (if b && m then some p else best) f.fb_id (if b then some p else q)
  fb_step true true p f later best q shown known ih = refl
  fb_step true false p f later best q shown known ih =
      let first = f.fb_id == 0 in
      ih (first_or first p ids f) (ap (λ kept. primary_ids_of kept s) (first_or_kept first p ids f))
      ∙ ap (λ r. settled fb_of best r q) (first_or_fb first p ids f)
      ∙ settled-first fb_of best q p f.fb_id (shown refl)
  fb_step false m p f later best q shown known ih = ih f known

  module _ (target : ℕ) (bound : target ≢ 0) where
    search_planes-settled :
        (ps : List (Option PlaneState)) (f : Found)
        → primary_ids_of f.kept s ≡ ids
        → AreKnown ids s.props ps
        → (search_planes target s ps f).fb_id
          ≡ settled fb_of
              (first_where (λ p. is_bound target p && is_primary_plane (s.props p.plane_id)) ps)
              f.fb_id
              (first_where (is_bound target) ps)
    unfolding search_planes plane_is_primary
    search_planes-settled [] f known primary = ground arith
    search_planes-settled (none ∷ ps) f known primary = search_planes-settled ps f known primary
    search_planes-settled (some p ∷ ps) f known primary =
        rw (known, is_candidate_bound target p bound, primary.0)
          (fb_step (is_bound target p) (is_primary_plane (s.props p.plane_id)) p f
            (search_planes target s ps)
            (first_where (λ p. is_bound target p && is_primary_plane (s.props p.plane_id)) ps)
            (first_where (is_bound target) ps) (bound_fb target p) known
            (λ g k. search_planes-settled ps g k primary.1))

-- The ids of the planes are those of the list that the probe went through.
abbrev pub AreListed : List ℕ → List (Option PlaneState) → Type 0
AreListed l [] = Unit
AreListed l (none ∷ ps) = AreListed l ps
AreListed l (some p ∷ ps) = (among p.plane_id l ≡ true) × AreListed l ps

listed-AreKnown :
    (props : ℕ → Option Properties) (l : List ℕ) (ps : List (Option PlaneState))
    → length (probe_planes props l []) < primary_cap
    → AreListed l ps
    → AreKnown (probe_planes props l []) props ps
listed-AreKnown props l [] room listed = tt
listed-AreKnown props l (none ∷ ps) room listed = listed-AreKnown props l ps room listed
listed-AreKnown props l (some p ∷ ps) room listed = (
  among-probe_planes props l [] p.plane_id room
      ∙ ap (λ b. false || (b && is_primary_plane (props p.plane_id))) listed.0,
  listed-AreKnown props l ps room listed.1,
)

-- Nothing found yet.
abbrev pub start : Option (List ℕ) → Found
start kept = record { fb_id = 0; crtc_id = 0; kept = kept }

-- For one CRTC, on the same planes, numbered from 1 and listed by the probe of the helper, with fewer
-- than 32 primary ones: whether the helper probes now or remembers what it probed before, the
-- framebuffer that it grabs is that of the plane that the library captures.
pub search_planes_same :
    (s : Planes) (l : List ℕ) (ps : List (Option PlaneState)) (kept : Option (List ℕ)) (target : ℕ)
    → target ≢ 0
    → AreNamed ps
    → AreListed l ps
    → length (probe_planes s.props l []) < primary_cap
    → primary_ids_of kept s ≡ probe_planes s.props l []
    → (search_primary target s.props ps 0 ≡ id_of (preferred target s.props ps))
      × ((search_planes target s ps (start kept)).fb_id ≡ fb_of (preferred target s.props ps))
search_planes_same s l ps kept target bound named listed room known =
    let best = first_where (λ p. is_bound target p && is_primary_plane (s.props p.plane_id)) ps in
    let first = first_where (is_bound target) ps in
    (
      search_primary-settled target s.props ps 0 named ∙ settled_fresh id_of best first,
      search_planes-settled s (probe_planes s.props l []) target bound ps (start kept) known
            (listed-AreKnown s.props l ps room listed)
          ∙ settled_fresh fb_of best first,
    )
