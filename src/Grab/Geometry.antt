-- ===== src/Grab/Geometry.antt =====
-- The checks on framebuffer geometry of src/drm_grab.c. `size_t` has `bits` bits, 32 or 64.
use libdrmtap.Prelude.{
  ℕ, ◌*◌, ◌/◌, ◌%◌, ◌^◌, ◌≤◌, ◌<◌, ◌≡◌, ◌↔◌, ◌||◌, ltb, ◌==◌, if◌then◌else◌, arith, le_div_iff,
  mul-le-square,
}
use libdrmtap.Errno.{Ret, ok, err, einval, efbig}

abbrev pub max_fb_bytes : ℕ
max_fb_bytes = 7680 * 4320 * 4

abbrev pub max_dim : ℕ
max_dim = 32768

-- The product `(size_t)width * height` is the only one; it is taken modulo 2 ^ bits.
unfoldable pub validate_fb_dims : ℕ → ℕ → ℕ → Ret (Unit {0})
validate_fb_dims bits width height =
    if (width == 0) || (height == 0)
    then err einval
    else if ltb max_dim width || ltb max_dim height
    then err efbig
    else if ltb (max_fb_bytes / 4) (width * height % 2 ^ bits)
    then err efbig
    else ok tt

unfoldable pub validate_fb_size : ℕ → ℕ → Ret (Unit {0})
validate_fb_size stride height =
    if (stride == 0) || (height == 0)
    then err einval
    else if ltb (max_fb_bytes / stride) height
    then err efbig
    else ok tt

-- Bytes per pixel of a scanout format, 4 where it is not one of the 16-bit formats.
unfoldable pub format_min_bpp : ℕ → ℕ
format_min_bpp fourcc =
    if (fourcc == 0x38345258)
      || ((fourcc == 0x38345241) || ((fourcc == 0x38344258) || (fourcc == 0x38344241)))
    then 8
    else 4

-- What the checks are for: dimensions of a frame that the library is willing to handle.
abbrev pub FrameFits : ℕ → ℕ → Type 0
FrameFits width height =
    (0 < width)
    × (0 < height)
    × (width ≤ max_dim)
    × (height ≤ max_dim)
    × (width * height * 4 ≤ max_fb_bytes)

dims_exact :
    (bits width height : ℕ)
    → 2 ^ 32 ≤ 2 ^ bits
    → width ≤ max_dim
    → height ≤ max_dim
    → width * height % 2 ^ bits ≡ width * height
dims_exact bits width height wide p q = grind (arith, mul-le-square)

-- The check accepts exactly the frames that fit, on a 32-bit size_t too: the product that it
-- takes cannot wrap.
pub validate_fb_dims_iff :
    (bits width height : ℕ)
    → 2 ^ 32 ≤ 2 ^ bits
    → (validate_fb_dims bits width height ≡ ok tt) ↔ FrameFits width height
unfolding validate_fb_dims
validate_fb_dims_iff bits width height wide = (
  (λ e. ground (arith, dims_exact bits width height wide)),
  λ f. ground (arith, dims_exact bits width height wide),
)

-- `stride * height` stays within the cap exactly if the check, which never multiplies, accepts.
pub validate_fb_size_iff :
    (stride height : ℕ)
    → (validate_fb_size stride height ≡ ok tt)
      ↔ ((0 < stride) × (0 < height) × (height * stride ≤ max_fb_bytes))
unfolding validate_fb_size
validate_fb_size_iff stride height = (
  (λ e. ground (arith, le_div_iff height stride max_fb_bytes)),
  λ f. ground (arith, le_div_iff height stride max_fb_bytes),
)

-- A framebuffer that passes the check has a size.
pub validate_fb_size-pos :
    (stride height : ℕ) → validate_fb_size stride height ≡ ok tt → 0 < stride * height
validate_fb_size-pos stride height e =
    let accepted = (validate_fb_size_iff stride height).0 e in grind arith

pub four-le-format_min_bpp : (fourcc : ℕ) → 4 ≤ format_min_bpp fourcc
unfolding format_min_bpp
four-le-format_min_bpp fourcc = ground arith

-- So a row that holds its pixels holds 4 bytes of each.
pub row-covers :
    (width stride fourcc : ℕ) → width * format_min_bpp fourcc ≤ stride → width * 4 ≤ stride
row-covers width stride fourcc h = grind (arith, four-le-format_min_bpp fourcc)
