-- ===== src/Grab/Scanout.antt =====
-- The scanned-out width of src/drm_grab.c: the decision, the plane rectangle it reads, and the
-- answer kept between frames.
pub mod Decision
pub mod Caching
use Prim.Native.String.{String}
use text.Mathlib.Text.{◌==◌ as str_eq}
use libdrmtap.Prelude.{
  ℕ, ◌/◌, ◌^◌, bit_or, Bool, ◌&&◌, ◌||◌, not, ltb, ◌==◌, if◌then◌else◌, u32, Option, none, some,
  true, false, List, [], ◌∷◌,
}
use libdrmtap.Pixel.Tiling.{mod_linear, mod_invalid}

pub data Why : Type 0 where
  as_is narrowed offset_unsupported tiled_not_narrowed scaling_not_narrowed no_plane_rect : Why

-- drmtap_plane_rect
pub record PlaneRect : Type 0 where
  pub valid : Bool
  pub src_x : ℕ
  pub src_y : ℕ
  pub src_w : ℕ
  pub src_h : ℕ
  pub crtc_w : ℕ
  pub crtc_h : ℕ

abbrev pub zero_rect : PlaneRect
zero_rect = record {
  valid = false;
  src_x = 0;
  src_y = 0;
  src_w = 0;
  src_h = 0;
  crtc_w = 0;
  crtc_h = 0;
}

-- The tiled case, the linear case without a usable rectangle, and the linear case with one.
abbrev tiled_why : ℕ → Option PlaneRect → Why
tiled_why fb_width none = as_is
tiled_why fb_width (some r) =
    if r.valid && (ltb 0 r.src_w && ltb r.src_w fb_width) then tiled_not_narrowed else as_is

abbrev unreadable_why : ℕ → Why
unreadable_why fb_width = if ltb 0 fb_width then no_plane_rect else as_is

abbrev linear_width : ℕ → PlaneRect → ℕ × Why
linear_width fb_width r =
    if not (r.src_x == 0) || not (r.src_y == 0)
    then (fb_width, offset_unsupported)
    else if not (r.src_w == r.crtc_w) || not (r.src_h == r.crtc_h)
    then (fb_width, scaling_not_narrowed)
    else if ltb 0 r.src_w && ltb r.src_w fb_width
    then (r.src_w, narrowed)
    else (fb_width, as_is)

-- drmtap_scanout_width_of; `none` is a null rectangle.
unfoldable pub scanout_width_of : ℕ → Option PlaneRect → Bool → ℕ × Why
scanout_width_of fb_width rect false = (fb_width, tiled_why fb_width rect)
scanout_width_of fb_width none true = (fb_width, unreadable_why fb_width)
scanout_width_of fb_width (some r) true =
    if r.valid then linear_width fb_width r else (fb_width, unreadable_why fb_width)

-- One property of a plane, by name: its field and its bit in `got`.
abbrev read_property : String → ℕ → PlaneRect × ℕ → PlaneRect × ℕ
read_property name v (rect, got) =
    if str_eq name "SRC_X"
    then (record rect { src_x = u32 (v / 2 ^ 16) }, bit_or got 1)
    else if str_eq name "SRC_Y"
    then (record rect { src_y = u32 (v / 2 ^ 16) }, bit_or got 2)
    else if str_eq name "SRC_W"
    then (record rect { src_w = u32 (v / 2 ^ 16) }, bit_or got 4)
    else if str_eq name "SRC_H"
    then (record rect { src_h = u32 (v / 2 ^ 16) }, bit_or got 8)
    else if str_eq name "CRTC_W"
    then (record rect { crtc_w = u32 v }, bit_or got 16)
    else if str_eq name "CRTC_H"
    then (record rect { crtc_h = u32 v }, bit_or got 32)
    else (rect, got)

-- The loop over the plane's properties; `none` is a property that could not be read.
unfoldable pub read_properties : List (Option (String × ℕ)) → PlaneRect × ℕ → PlaneRect × ℕ
read_properties [] acc = acc
read_properties (none ∷ ps) acc = read_properties ps acc
read_properties (some (name, v) ∷ ps) acc = read_properties ps (read_property name v acc)

-- read_primary_plane_rect; `none` is a plane or a property list that could not be had.
unfoldable pub plane_rect : Option (List (Option (String × ℕ))) → PlaneRect
unfolding read_properties
plane_rect none = zero_rect
plane_rect (some ps) =
    let (rect, got) = read_properties ps (zero_rect, 0) in record rect { valid = got == 63 }

-- The current mode of the CRTC, as drmModeGetCrtc reports it.
pub record Mode : Type 0 where
  pub mode_valid : Bool
  pub hdisplay : ℕ

-- The part of drmtap_ctx that drmtap_scanout_width uses.
pub record Memo : Type 0 where
  pub crtc_id : ℕ
  pub sw_cached : Bool
  pub sw_key_crtc : ℕ
  pub sw_key_hdisplay : ℕ
  pub sw_key_fb_width : ℕ
  pub sw_key_modifier : ℕ
  pub sw_cached_width : ℕ
  pub logged_scanout_crop : Bool

abbrev is_logged : Why → Bool → Bool
is_logged as_is logged = logged
is_logged _ logged = true

abbrev pub is_linear : ℕ → Bool
is_linear modifier = (modifier == mod_linear) || (modifier == mod_invalid)

-- The answer from the plane, stored under its key.
abbrev decide_width : Memo → ℕ → ℕ → ℕ → PlaneRect → ℕ × Memo
decide_width m hdisplay fb_width modifier rect =
    let (out, why) = scanout_width_of fb_width (some rect) (is_linear modifier) in
    (
      out,
      record m {
        sw_cached = true;
        sw_key_crtc = m.crtc_id;
        sw_key_hdisplay = hdisplay;
        sw_key_fb_width = fb_width;
        sw_key_modifier = modifier;
        sw_cached_width = out;
        logged_scanout_crop = is_logged why m.logged_scanout_crop;
      },
    )

abbrev pub key_matches : Memo → ℕ → ℕ → ℕ → Bool
key_matches m hdisplay fb_width modifier =
    m.sw_cached
    && ((m.sw_key_crtc == m.crtc_id)
        && ((m.sw_key_hdisplay == hdisplay)
            && ((m.sw_key_fb_width == fb_width) && (m.sw_key_modifier == modifier))))

-- The cheap gate: the mode is narrower than the framebuffer.
abbrev worth_looking : Mode → ℕ → Bool
worth_looking mode fb_width = mode.mode_valid && (ltb 0 mode.hdisplay && ltb mode.hdisplay fb_width)

abbrev with_mode : Memo → Option Mode → ℕ → ℕ → PlaneRect → ℕ × Memo
with_mode m none fb_width modifier rect = (fb_width, m)
with_mode m (some mode) fb_width modifier rect =
    if worth_looking mode fb_width
    then if key_matches m mode.hdisplay fb_width modifier
      then (m.sw_cached_width, m)
      else decide_width m mode.hdisplay fb_width modifier rect
    else (fb_width, m)

-- drmtap_scanout_width: `mode` is what drmModeGetCrtc gives, `rect` what the plane would read as.
unfoldable pub scanout_width : Memo → Option Mode → PlaneRect → ℕ → ℕ → ℕ × Memo
scanout_width m mode rect fb_width modifier =
    if m.crtc_id == 0 then (fb_width, m) else with_mode m mode fb_width modifier rect
