-- ===== src/Pixel/Tiling.antt =====
-- drmtap_deswizzle of src/pixel_convert.c and the two Intel layouts that it decodes.
pub mod Copy
pub mod Layout
pub mod Api
use libdrmtap.Prelude.{
  ℕ, ◌+◌, ◌-◌, ◌*◌, ◌/◌, ◌%◌, ◌^◌, bit_and, ◌||◌, ltb, leb, ◌==◌, if◌then◌else◌, u8, u32, Option,
  none, some,
}
use libdrmtap.Errno.{Ret, ok, err, einval, enotsup}
use libdrmtap.Memory.{Buffer, memcpy, memset, loop, for_pixels}

-- Tiles per row of tiles: the stride rounded up to whole tiles, in uint32_t.
unfoldable pub tiles_across : ℕ → ℕ → ℕ
tiles_across tile_w stride = u32 (stride + (tile_w - 1)) / tile_w

-- Where the X-tiled layout keeps pixel `x` of row `y`: tiles of 512 bytes by 8 rows, row by row.
unfoldable pub x_tiled_off : ℕ → ℕ → ℕ → ℕ
unfolding tiles_across
x_tiled_off stride y x =
    let x_bytes = u32 (x * 4) in
    let tile_idx = u32 (y / 8 * tiles_across 512 stride + x_bytes / 512) in
    u32 (tile_idx * 4096 + y % 8 * 512 + x_bytes % 512)

-- The Y-tiled layout: tiles of 128 bytes by 32 rows, in columns of 16 bytes.
unfoldable pub y_tiled_off : ℕ → ℕ → ℕ → ℕ
unfolding tiles_across
y_tiled_off stride y x =
    let x_bytes = u32 (x * 4) in
    let in_tile_x = x_bytes % 128 in
    let tile_idx = u32 (y / 32 * tiles_across 128 stride + x_bytes / 128) in
    u32 (tile_idx * 4096 + in_tile_x / 16 * 512 + y % 32 * 16 + in_tile_x % 16)

-- One pixel of a detiling loop: the source bytes at `src_off`, or zeroes past the source's end.
unfoldable pub copy_pixel : Buffer → ℕ → ℕ → ℕ → ℕ → ℕ → Buffer → Option Buffer
copy_pixel s src_size src_off dst_stride y x d =
    let dst_off = u32 (y * dst_stride) + u32 (x * 4) in
    if leb (src_off + 4) src_size then memcpy d dst_off s src_off 4 else memset d dst_off 0 4

unfoldable pub deswizzle_intel_x_tiled : Buffer → Buffer → ℕ → ℕ → ℕ → ℕ → ℕ → Option Buffer
deswizzle_intel_x_tiled s d width height src_stride dst_stride src_size =
    for_pixels width height
      (λ y x. copy_pixel s src_size (x_tiled_off src_stride y x) dst_stride y x) d

unfoldable pub deswizzle_intel_y_tiled : Buffer → Buffer → ℕ → ℕ → ℕ → ℕ → ℕ → Option Buffer
deswizzle_intel_y_tiled s d width height src_stride dst_stride src_size =
    for_pixels width height
      (λ y x. copy_pixel s src_size (y_tiled_off src_stride y x) dst_stride y x) d

-- The linear layout: whole rows, zeroed where the source does not hold them. The length of the
-- memcpy is computed in uint32_t.
unfoldable pub copy_rows : Buffer → Buffer → ℕ → ℕ → ℕ → ℕ → ℕ → Option Buffer
copy_rows s d width height src_stride dst_stride src_size =
    loop height 0
      (λ y d'.
        if ltb src_size (y * src_stride + width * 4)
        then memset d' (u32 (y * dst_stride)) 0 (width * 4)
        else memcpy d' (u32 (y * dst_stride)) s (y * src_stride) (u32 (width * 4)))
      d

-- The kernel's constants of drm_fourcc.h.
abbrev pub mod_linear : ℕ
mod_linear = 0

abbrev pub mod_invalid : ℕ
mod_invalid = 0x00ff_ffff_ffff_ffff

abbrev pub vendor_intel : ℕ
vendor_intel = 1

abbrev pub vendor_nvidia : ℕ
vendor_nvidia = 3

abbrev pub vendor_of : ℕ → ℕ
vendor_of modifier = u8 (modifier / 2 ^ 56)

abbrev pub type_of : ℕ → ℕ
type_of modifier = u8 (bit_and modifier 0xff)

-- A decoder that runs only if a row fits the destination stride.
abbrev pub if_row_fits : ℕ → ℕ → Option Buffer → Option (Ret Buffer)
if_row_fits width dst_stride decoded =
    if leb (width * 4) dst_stride
    then elim decoded [ none ↦ none | some d ↦ some (ok d) ]
    else some (err einval)

-- The part after the argument checks: the layout is chosen by the modifier.
unfoldable pub deswizzle_layout : Buffer → Buffer → ℕ → ℕ → ℕ → ℕ → ℕ → ℕ → Option (Ret Buffer)
deswizzle_layout s d width height src_stride dst_stride modifier src_size =
    if modifier == mod_linear
    then if_row_fits width dst_stride (copy_rows s d width height src_stride dst_stride src_size)
    else if vendor_of modifier == vendor_intel
    then (if type_of modifier == 1
        then if_row_fits width dst_stride
            (deswizzle_intel_x_tiled s d width height src_stride dst_stride src_size)
        else if (type_of modifier == 2) || (type_of modifier == 3)
        then if_row_fits width dst_stride
            (deswizzle_intel_y_tiled s d width height src_stride dst_stride src_size)
        else some (err enotsup))
    else if vendor_of modifier == vendor_nvidia
    then some (err enotsup)
    else if modifier == mod_invalid
    then if_row_fits width dst_stride (copy_rows s d width height src_stride dst_stride src_size)
    else some (err enotsup)

-- `none` as an argument is a null pointer; as a result it is a memory fault.
pub deswizzle : Option Buffer → Option Buffer → ℕ → ℕ → ℕ → ℕ → ℕ → ℕ → Option (Ret Buffer)
deswizzle none dst width height src_stride dst_stride modifier src_size = some (err einval)
deswizzle (some s) none width height src_stride dst_stride modifier src_size = some (err einval)
deswizzle (some s) (some d) width height src_stride dst_stride modifier src_size =
    if (width == 0) || (height == 0)
    then some (err einval)
    else deswizzle_layout s d width height src_stride dst_stride modifier src_size
