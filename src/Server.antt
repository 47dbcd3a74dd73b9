-- ===== src/Server.antt =====
-- What helper/drmtap-helper.c does between a request and its reply.
pub mod Grab
pub mod Cursor
mod Probe
pub mod SamePlane
use Prim.Native.String.{String}
use text.Mathlib.Text.{◌==◌ as str_eq}
use libdrmtap.Prelude.{
  ℕ, ◌==◌, ◌&&◌, ◌||◌, not, ltb, Bool, true, false, if◌then◌else◌, Option, none, some, List, [],
  ◌∷◌, ◌++◌, length,
}
use libdrmtap.Grab.Fast.Import.{among}
use libdrmtap.Cursor.{Properties}
pub use libdrmtap.Grab.Target.{PlaneState}

-- What the kernel says of the planes. `ids` is the list of the probe, which may fail on its own.
pub record Planes : Type 0 where
  pub planes : Option (List (Option PlaneState))
  pub ids : Option (List ℕ)
  pub props : ℕ → Option Properties

-- The static variables of plane_is_primary and grab_and_send.
pub record State : Type 0 where
  pub primary_ids : Option (List ℕ)
  pub virtio_detected : Bool
  pub virtio_virgl : Bool
  pub seq_counter : ℕ

abbrev pub primary_cap : ℕ
primary_cap = 32

-- Every property `type` with the value PRIMARY enters the plane, while there is room.
unfoldable pub enter_primary : Properties → ℕ → List ℕ → List ℕ
enter_primary [] id ids = ids
enter_primary (none ∷ ps) id ids = enter_primary ps id ids
enter_primary (some (n, v) ∷ ps) id ids = enter_primary ps id (
    if str_eq n "type" && ((v == 1) && ltb (length ids) primary_cap) then ids ++ (id ∷ []) else ids)

abbrev pub enter_listed : Option Properties → ℕ → List ℕ → List ℕ
enter_listed none id ids = ids
enter_listed (some ps) id ids = enter_primary ps id ids

unfoldable pub probe_planes : (ℕ → Option Properties) → List ℕ → List ℕ → List ℕ
probe_planes props [] ids = ids
probe_planes props (p ∷ ps) ids =
    let rest = probe_planes props ps (enter_listed (props p) p ids) in
    if ltb (length ids) primary_cap then rest else ids

abbrev pub probed : (ℕ → Option Properties) → Option (List ℕ) → List ℕ
probed props none = []
probed props (some ids) = probe_planes props ids []

-- The ids that are kept, or those of the probe.
abbrev pub primary_ids_of : Option (List ℕ) → Planes → List ℕ
primary_ids_of (some ids) ps = ids
primary_ids_of none ps = probed ps.props ps.ids

-- plane_is_primary: the answer, and the ids that are kept from then on.
unfoldable pub plane_is_primary : Planes → Option (List ℕ) → ℕ → Bool × List ℕ
plane_is_primary ps kept plane = let ids = primary_ids_of kept ps in (among plane ids, ids)

-- A plane that the search looks at: one of the target CRTC, or any if there is no target, that has a
-- framebuffer.
abbrev pub is_candidate : ℕ → PlaneState → Bool
is_candidate target p = ((target == 0) || (p.crtc_id == target)) && not (p.fb_id == 0)

-- The framebuffer found so far, 0 if there is none, with its CRTC, and the kept ids.
pub record Found : Type 0 where
  pub fb_id : ℕ
  pub crtc_id : ℕ
  pub kept : Option (List ℕ)

abbrev pub take_plane : PlaneState → List ℕ → Found
take_plane p ids = record { fb_id = p.fb_id; crtc_id = p.crtc_id; kept = some ids }

-- A primary plane ends the search; any other is taken if it is the first.
abbrev pub first_or : Bool → PlaneState → List ℕ → Found → Found
first_or true p ids f = take_plane p ids
first_or false p ids f = record f { kept = some ids }

unfoldable pub search_planes : ℕ → Planes → List (Option PlaneState) → Found → Found
search_planes target ps [] f = f
search_planes target ps (none ∷ rest) f = search_planes target ps rest f
search_planes target ps (some p ∷ rest) f =
    let (primary, ids) = plane_is_primary ps f.kept p.plane_id in
    let later = search_planes target ps rest in
    if is_candidate target p
    then if primary then take_plane p ids else later (first_or (f.fb_id == 0) p ids f)
    else later f
