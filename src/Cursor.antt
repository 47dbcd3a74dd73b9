-- ===== src/Cursor.antt =====
-- src/cursor.c: the cursor plane, its position, hotspot and pixels.
pub mod Plane
pub mod Sample
use Prim.Native.String.{String}
use text.Mathlib.Text.{◌==◌ as str_eq}
use libdrmtap.Prelude.{
  ℕ, ◌*◌, ◌==◌, ◌&&◌, not, ltb, leb, Bool, true, false, if◌then◌else◌, u32, Option, none, some,
  List, [], ◌∷◌, ◌++◌, bit_and, bit_or,
}
use libdrmtap.Errno.{Errno, Ret, ok, err, enodev, enotsup}
use libdrmtap.Memory.{Buffer}
use libdrmtap.Memory.Repack.{repack, Copy, no_copy, copied}
use libdrmtap.Grab.Fast.{Event, get_fb2, export_fd, map_at, sync_end, unmap, close_fd, gem_due}
use libdrmtap.Grab.Fast.Frame.{Fb2}
use libdrmtap.Grab.Fast.Import.{start_event}
use libdrmtap.Grab.OneShot.Call.{is_denied}

-- The properties of an object, by name; `none` is one that could not be read.
abbrev pub Properties : Type 0
Properties = List (Option (String × ℕ))

unfoldable pub find_property : String → Properties → Option ℕ
find_property name [] = none
find_property name (none ∷ ps) = find_property name ps
find_property name (some (n, v) ∷ ps) =
    let later = find_property name ps in if str_eq n name then some v else later

-- get_property_value; an object whose properties cannot be listed has none.
abbrev pub get_property_value : String → Option Properties → Option ℕ
get_property_value name none = none
get_property_value name (some ps) = find_property name ps

abbrev pub or_zero : Option ℕ → ℕ
or_zero none = 0
or_zero (some v) = v

abbrev pub is_found : Option ℕ → Bool
is_found none = false
is_found (some v) = true

pub record PlaneInfo : Type 0 where
  pub plane_id : ℕ
  pub crtc_id : ℕ

-- DRM_PLANE_TYPE_CURSOR
abbrev pub is_cursor_type : Option ℕ → Bool
is_cursor_type none = false
is_cursor_type (some v) = v == 2

-- Bound to the target, or to any CRTC if there is no target.
abbrev pub crtc_ok : ℕ → ℕ → Bool
crtc_ok target crtc = if target == 0 then not (crtc == 0) else crtc == target

unfoldable pub first_cursor : ℕ → (ℕ → Option Properties) → List (Option PlaneInfo) → ℕ
first_cursor target props [] = 0
first_cursor target props (none ∷ ps) = first_cursor target props ps
first_cursor target props (some p ∷ ps) =
    let later = first_cursor target props ps in
    if crtc_ok target p.crtc_id && is_cursor_type (get_property_value "type" (props p.plane_id))
    then p.plane_id
    else later

abbrev pub find_cursor_plane : ℕ → (ℕ → Option Properties) → Option (List (Option PlaneInfo)) → ℕ
find_cursor_plane target props none = 0
find_cursor_plane target props (some ps) = first_cursor target props ps

-- drmtap_cursor_info. An int32_t is its bit pattern; `priv` holds the flags of `_priv`.
pub record Info : Type 0 where
  pub x : ℕ
  pub y : ℕ
  pub hot_x : ℕ
  pub hot_y : ℕ
  pub width : ℕ
  pub height : ℕ
  pub pixels : Copy
  pub visible : Bool
  pub priv : ℕ

abbrev pub cleared : Info
cleared = record {
  x = 0;
  y = 0;
  hot_x = 0;
  hot_y = 0;
  width = 0;
  height = 0;
  pixels = no_copy;
  visible = false;
  priv = 0;
}

-- CURSOR_PRIV_HOT_ANSWERED and CURSOR_PRIV_HOT_MEASURED
abbrev pub hot_answered : ℕ
hot_answered = 1

abbrev pub hot_measured : ℕ
hot_measured = 2

unfoldable pub set_hot_provenance : Bool → Info → Info
set_hot_provenance measured c = record c {
  priv = if measured then bit_or hot_answered hot_measured else hot_answered;
}

-- wire_hot_measured: only a complete pair is a hotspot.
abbrev pub wire_hot_measured : Bool → Bool → Bool
wire_hot_measured x y = x && y

-- drmtap_cursor_hotspot_valid
unfoldable pub cursor_hotspot_valid : Info → Ret Bool
cursor_hotspot_valid c =
    if bit_and c.priv hot_answered == 0
    then err enotsup
    else ok (not (bit_and c.priv hot_measured == 0))

-- drmtap_cursor_release, with free(pixels)
unfoldable pub cursor_release : Info → Info
cursor_release c = record c { pixels = no_copy; priv = 0 }

-- drmtap_cursor_needs_helper
unfoldable pub cursor_needs_helper : Bool → Errno → Bool → Bool
cursor_needs_helper false e had_handle = is_denied e
cursor_needs_helper true e had_handle = not had_handle

-- What the kernel and the helper answer. `helper` is what drmtap_helper_get_cursor makes of the
-- sample, `source` the mapped memory and `garbage` what malloc gives.
pub record Answers : Type 0 where
  pub planes : Option (List (Option PlaneInfo))
  pub props : ℕ → Option Properties
  pub plane_fb : Option ℕ
  pub fb2 : Ret Fb2
  pub exported : Ret ℕ
  pub cpu_map : Ret ℕ
  pub granted : Bool
  pub malloc : Bool
  pub source : Buffer
  pub garbage : ℕ → ℕ
  pub helper : Ret (Unit {0}) × Info

-- The system calls, the result with the sample, and whether the helper was asked.
abbrev pub Outcome : Type 0
Outcome = List Event × Ret (Unit {0}) × Info × Bool

module _ (a : Answers) where
  abbrev pub ask_helper : List Event → Outcome
  ask_helper es = (es, a.helper.0, a.helper.1, true)

  abbrev pub answer : List Event → Info → Outcome
  answer es c = (es, ok tt, c, false)

  -- Position and hotspot.
  unfoldable pub placed : ℕ → Info
  unfolding set_hot_provenance
  placed plane =
      let hot_x = get_property_value "HOTSPOT_X" (a.props plane) in
      let hot_y = get_property_value "HOTSPOT_Y" (a.props plane) in
      set_hot_provenance (wire_hot_measured (is_found hot_x) (is_found hot_y)) (record cleared {
        x = u32 (or_zero (get_property_value "CRTC_X" (a.props plane)));
        y = u32 (or_zero (get_property_value "CRTC_Y" (a.props plane)));
        hot_x = u32 (or_zero hot_x);
        hot_y = u32 (or_zero hot_y);
        visible = true;
      })

  -- At most 256 by 256, and rows that hold the width.
  abbrev pub is_small : Fb2 → Bool
  is_small f =
      leb f.width 256 && (leb f.height 256 && (not (f.pitch == 0) && leb (f.width * 4) f.pitch))

  abbrev pub pixels_if : Bool → Fb2 → Copy
  pixels_if false f = no_copy
  pixels_if true f = copied (
      repack a.source (record { len = f.width * f.height * 4; at = a.garbage }) f.width f.height
        f.pitch)

  -- A START that succeeded is ended after the copy.
  abbrev pub end_event : Bool → ℕ → List Event
  end_event true fd = sync_end fd ∷ []
  end_event false fd = []

  abbrev pub read_mapped : Ret ℕ → ℕ → Fb2 → List Event × Copy
  read_mapped (err e) fd f = ([], no_copy)
  read_mapped (ok p) fd f = (
    map_at p (f.pitch * f.height)
        ∷ start_event a.granted fd
        ∷ (end_event a.granted fd ++ (unmap p (f.pitch * f.height) ∷ [])),
    pixels_if a.malloc f,
  )

  abbrev pub read_small : Bool → ℕ → Fb2 → List Event × Copy
  read_small false fd f = ([], no_copy)
  read_small true fd f = read_mapped a.cpu_map fd f

  abbrev pub read_exported : Ret ℕ → Fb2 → List Event × Copy
  read_exported (err e) f = ([], no_copy)
  read_exported (ok fd) f =
      let (es, k) = read_small (is_small f) fd f in (export_fd fd ∷ (es ++ (close_fd fd ∷ [])), k)

  abbrev pub read_fb : Bool → Fb2 → List Event × Copy
  read_fb false f = ([], no_copy)
  read_fb true f = read_exported a.exported f

  -- A visible cursor without pixels: for want of privilege, or for now.
  abbrev pub or_helper : Copy → List Event → Bool → Info → Outcome
  or_helper no_copy es had_handle c =
      if cursor_needs_helper true enodev had_handle then ask_helper es else answer es c
  or_helper k es had_handle c = answer es c

  abbrev pub on_fb2 : Ret Fb2 → Info → Outcome
  on_fb2 (err e) c = if cursor_needs_helper false e false then ask_helper [] else answer [] c
  on_fb2 (ok f) c =
      let had_handle = not (f.handle == 0) in
      let (es, k) = read_fb had_handle f in
      or_helper k (get_fb2 f.handle f.aux_handles ∷ (es ++ gem_due f.handle)) had_handle
        (record c { width = f.width; height = f.height; pixels = k })

  -- A plane without a framebuffer, as no plane, is a hidden cursor.
  unfoldable pub hidden : Info
  unfolding set_hot_provenance
  hidden = set_hot_provenance false cleared

  abbrev pub on_plane_fb : Option ℕ → ℕ → Outcome
  on_plane_fb none plane = ([], err enodev, cleared, false)
  on_plane_fb (some fb) plane = if fb == 0 then answer [] hidden else on_fb2 a.fb2 (placed plane)

  abbrev pub on_plane : ℕ → Outcome
  on_plane plane = if plane == 0 then answer [] hidden else on_plane_fb a.plane_fb plane

  -- drmtap_get_cursor: a helper that runs is asked at once.
  abbrev pub unless_running : Bool → ℕ → Outcome
  unless_running true target = ask_helper []
  unless_running false target = on_plane (find_cursor_plane target a.props a.planes)

  unfoldable pub get_cursor : Bool → ℕ → Outcome
  get_cursor running target = unless_running running target
