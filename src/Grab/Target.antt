-- ===== src/Grab/Target.antt =====
-- What src/drm_grab.c captures: the CRTC, its plane, and the HDR metadata of its connector.
pub mod Choice
pub mod Rotation
pub mod Remembered
use Prim.Native.String.{String}
use text.Mathlib.Text.{◌==◌ as str_eq}
use libdrmtap.Prelude.{
  ℕ, ◌==◌, ◌&&◌, not, Bool, true, false, if◌then◌else◌, u32, Option, none, some, List, [], ◌∷◌,
}
use libdrmtap.Errno.{Ret, ok, err, enotsup, enoent, enodata}
use libdrmtap.Cursor.{Properties, get_property_value, or_zero}
use libdrmtap.Display.Refresh.{Mode, mode_refresh}

-- A plane as drmModeGetPlane reports it.
pub record PlaneState : Type 0 where
  pub plane_id : ℕ
  pub crtc_id : ℕ
  pub fb_id : ℕ

-- A CRTC as drmModeGetCrtc reports it; `mode` is there if mode_valid is set.
pub record CrtcState : Type 0 where
  pub crtc_id : ℕ
  pub mode : Option Mode

pub record ConnectorState : Type 0 where
  pub connector_id : ℕ
  pub is_connected : Bool

-- The part of struct hdr_output_metadata that is read.
pub record Infoframe : Type 0 where
  pub eotf : ℕ
  pub max_cll : ℕ
  pub max_luminance : ℕ

-- What the kernel answers; `none` in a list is an object that could not be read. A blob that is too
-- short is none.
pub record Kernel : Type 0 where
  pub planes : Option (List (Option PlaneState))
  pub crtcs : Option (List (Option CrtcState))
  pub get_crtc : ℕ → Ret CrtcState
  pub props : ℕ → Option Properties
  pub connectors : Option (List (Option ConnectorState))
  pub blobs : ℕ → Option Infoframe

-- select_first_active_crtc
abbrev pub has_mode : Option Mode → Bool
has_mode none = false
has_mode (some m) = true

unfoldable pub first_active : List (Option CrtcState) → ℕ
first_active [] = 0
first_active (none ∷ cs) = first_active cs
first_active (some c ∷ cs) =
    let later = first_active cs in
    if has_mode c.mode && not (c.crtc_id == 0) then c.crtc_id else later

abbrev pub select_first_active_crtc : Option (List (Option CrtcState)) → ℕ
select_first_active_crtc none = 0
select_first_active_crtc (some cs) = first_active cs

-- The CRTC of the context, which a choice is written to.
abbrev pub target_of : Kernel → ℕ → ℕ
target_of k crtc_id = if crtc_id == 0 then select_first_active_crtc k.crtcs else crtc_id

-- A property `type` with the value PRIMARY.
unfoldable pub is_primary : Properties → Bool
is_primary [] = false
is_primary (none ∷ ps) = is_primary ps
is_primary (some (n, v) ∷ ps) =
    let later = is_primary ps in if str_eq n "type" && (v == 1) then true else later

abbrev pub is_primary_plane : Option Properties → Bool
is_primary_plane none = false
is_primary_plane (some ps) = is_primary ps

-- A plane that is bound to the target and has a framebuffer.
abbrev pub is_bound : ℕ → PlaneState → Bool
is_bound target p = (p.crtc_id == target) && not (p.fb_id == 0)

-- A primary plane ends the search; any other is taken if it is the first.
unfoldable pub search_primary : ℕ → (ℕ → Option Properties) → List (Option PlaneState) → ℕ → ℕ
search_primary target props [] result = result
search_primary target props (none ∷ ps) result = search_primary target props ps result
search_primary target props (some p ∷ ps) result =
    let later = search_primary target props ps in
    if is_bound target p
    then if is_primary_plane (props p.plane_id)
      then if p.plane_id == 0 then later 0 else p.plane_id
      else later (if result == 0 then p.plane_id else result)
    else later result

abbrev pub search_for : Kernel → List (Option PlaneState) → ℕ → ℕ
search_for k ps target = if target == 0 then 0 else search_primary target k.props ps 0

-- find_primary_plane: the plane, and the CRTC of the context from then on.
abbrev pub find_among : Kernel → Option (List (Option PlaneState)) → ℕ → ℕ × ℕ
find_among k none crtc_id = (0, crtc_id)
find_among k (some ps) crtc_id =
    let target = target_of k crtc_id in (search_for k ps target, target)

unfoldable pub find_primary_plane : Kernel → ℕ → ℕ × ℕ
find_primary_plane k crtc_id = find_among k k.planes crtc_id

-- drmtap_crtc_refresh, with the CRTC of the context.
abbrev pub as_rate : Ret (Option (ℕ × ℕ)) → Ret (Option (ℕ × ℕ))
as_rate (ok r) = ok r
as_rate (err e) = err enodata

abbrev pub rate_of : Option Mode → Ret (Option (ℕ × ℕ))
rate_of none = err enodata
rate_of (some m) = as_rate (mode_refresh m)

abbrev pub crtc_rate : Ret CrtcState → Ret (Option (ℕ × ℕ))
crtc_rate (err e) = err e
crtc_rate (ok c) = rate_of c.mode

unfoldable pub crtc_refresh : Bool → Kernel → ℕ → Ret (Option (ℕ × ℕ)) × ℕ
crtc_refresh true k crtc_id = (err enotsup, crtc_id)
crtc_refresh false k crtc_id =
    let target = target_of k crtc_id in
    (if target == 0 then err enoent else crtc_rate (k.get_crtc target), target)

-- connector_crtc_atomic, of the library and of the helper
abbrev pub connector_crtc_atomic : Kernel → ℕ → ℕ
connector_crtc_atomic k id = u32 (or_zero (get_property_value "CRTC_ID" (k.props id)))

-- The first connected connector that drives the CRTC.
unfoldable pub find_connector : Kernel → ℕ → List (Option ConnectorState) → ℕ
find_connector k crtc [] = 0
find_connector k crtc (none ∷ cs) = find_connector k crtc cs
find_connector k crtc (some c ∷ cs) =
    let later = find_connector k crtc cs in
    if c.is_connected
      && ((connector_crtc_atomic k c.connector_id == crtc) && not (c.connector_id == 0))
    then c.connector_id
    else later

-- The transfer function, and the peak of the content or else of the mastering display.
abbrev pub advertised : Option Infoframe → ℕ × ℕ → ℕ × ℕ
advertised none hdr = hdr
advertised (some f) hdr = (f.eotf, if f.max_cll == 0 then f.max_luminance else f.max_cll)

unfoldable pub read_blobs : (ℕ → Option Infoframe) → Properties → ℕ × ℕ → ℕ × ℕ
read_blobs blobs [] hdr = hdr
read_blobs blobs (none ∷ ps) hdr = read_blobs blobs ps hdr
read_blobs blobs (some (n, v) ∷ ps) hdr =
    read_blobs blobs ps (
      if str_eq n "HDR_OUTPUT_METADATA" && not (v == 0)
      then advertised (blobs (u32 v)) hdr
      else hdr)

abbrev pub hdr_of : Kernel → Option Properties → ℕ × ℕ
hdr_of k none = (0, 0)
hdr_of k (some ps) = read_blobs k.blobs ps (0, 0)

abbrev pub hdr_among : Kernel → Option (List (Option ConnectorState)) → ℕ → ℕ × ℕ
hdr_among k none crtc = (0, 0)
hdr_among k (some cs) crtc =
    let id = find_connector k crtc cs in if id == 0 then (0, 0) else hdr_of k (k.props id)

-- read_hdr_metadata of the helper and read_hdr_metadata_direct of the library
unfoldable pub read_hdr_metadata : Kernel → ℕ → ℕ × ℕ
read_hdr_metadata k crtc = if crtc == 0 then (0, 0) else hdr_among k k.connectors crtc
