-- ===== src/Pixel/Format.antt =====
-- The integer pixel formats of src/pixel_convert.c: drmtap_convert_format and its two loops.
pub mod Channels
pub mod Api
use libdrmtap.Prelude.{
  ℕ, ◌+◌, ◌*◌, ◌/◌, ◌%◌, ◌^◌, bit_and, bit_or, Bool, ◌&&◌, ◌||◌, ltb, ◌==◌, if◌then◌else◌, u8, u32,
  Option, none, some,
}
use libdrmtap.Errno.{Ret, ok, err, einval, enotsup}
use libdrmtap.Memory.{Buffer, memcpy, load32, store32, loop, for_pixels, ◌>>=◌}

-- (a << 24) | (r << 16) | (g << 8) | b
unfoldable pub pack_argb : ℕ → ℕ → ℕ → ℕ → ℕ
pack_argb a r g b =
    bit_or (bit_or (bit_or (u32 (a * 2 ^ 24)) (u32 (r * 2 ^ 16))) (u32 (g * 2 ^ 8))) b

-- One 10-bit pixel to XRGB8888: the top 8 bits of each channel; `bgr` swaps the outer two.
unfoldable pub ar30_pixel : Bool → ℕ → ℕ
ar30_pixel bgr pixel =
    let c_hi = u8 (bit_and (pixel / 2 ^ 22) 0xff) in
    let g = u8 (bit_and (pixel / 2 ^ 12) 0xff) in
    let c_lo = u8 (bit_and (pixel / 2 ^ 2) 0xff) in
    pack_argb 0xff (if bgr then c_lo else c_hi) g (if bgr then c_hi else c_lo)

unfoldable pub abgr_pixel : ℕ → ℕ
abgr_pixel pixel =
    pack_argb (u8 (pixel / 2 ^ 24)) (u8 pixel) (u8 (pixel / 2 ^ 8)) (u8 (pixel / 2 ^ 16))

-- The body that both loops share: load a word of the source, convert it, store it.
unfoldable pub convert_word : (ℕ → ℕ) → Buffer → ℕ → ℕ → ℕ → ℕ → Buffer → Option Buffer
convert_word f s src_stride dst_stride y x d = do
  pixel ← load32 s (u32 (y * src_stride) + x * 4)
  store32 d (u32 (y * dst_stride) + x * 4) (f pixel)

unfoldable pub convert_ar30_to_xrgb8888 : Buffer → Buffer → ℕ → ℕ → ℕ → ℕ → Bool → Option Buffer
convert_ar30_to_xrgb8888 s d width height src_stride dst_stride bgr =
    for_pixels width height (convert_word (ar30_pixel bgr) s src_stride dst_stride) d

unfoldable pub convert_abgr_to_argb : Buffer → Buffer → ℕ → ℕ → ℕ → ℕ → Option Buffer
convert_abgr_to_argb s d width height src_stride dst_stride =
    for_pixels width height (convert_word abgr_pixel s src_stride dst_stride) d

-- The same-format branch: whole rows, offsets and length in uint32_t.
unfoldable pub copy_same : Buffer → Buffer → ℕ → ℕ → ℕ → ℕ → Option Buffer
copy_same s d width height src_stride dst_stride =
    loop height 0
      (λ y d'. memcpy d' (u32 (y * dst_stride)) s (u32 (y * src_stride)) (u32 (width * 4))) d

abbrev pub xrgb8888 : ℕ
xrgb8888 = 0x34325258

abbrev pub argb8888 : ℕ
argb8888 = 0x34325241

abbrev pub abgr8888 : ℕ
abgr8888 = 0x34324241

abbrev pub xrgb2101010 : ℕ
xrgb2101010 = 0x30335258

abbrev pub argb2101010 : ℕ
argb2101010 = 0x30335241

abbrev pub xbgr2101010 : ℕ
xbgr2101010 = 0x30334258

abbrev pub abgr2101010 : ℕ
abgr2101010 = 0x30334241

abbrev pub is_bgr30 : ℕ → Bool
is_bgr30 f = (f == xbgr2101010) || (f == abgr2101010)

abbrev pub is_ten_bit : ℕ → Bool
is_ten_bit f = (f == xrgb2101010) || ((f == argb2101010) || is_bgr30 f)

abbrev pub is_rgb8 : ℕ → Bool
is_rgb8 f = (f == xrgb8888) || (f == argb8888)

abbrev pub done : Option Buffer → Option (Ret Buffer)
done none = none
done (some d) = some (ok d)

-- The part after the argument checks.
unfoldable pub convert_checked : Buffer → Buffer → ℕ → ℕ → ℕ → ℕ → ℕ → ℕ → Option (Ret Buffer)
convert_checked s d width height src_stride dst_stride src_format dst_format =
    if src_format == dst_format
    then done (copy_same s d width height src_stride dst_stride)
    else if is_ten_bit src_format && is_rgb8 dst_format
    then done
        (convert_ar30_to_xrgb8888 s d width height src_stride dst_stride (is_bgr30 src_format))
    else if (src_format == abgr8888) && is_rgb8 dst_format
    then done (convert_abgr_to_argb s d width height src_stride dst_stride)
    else some (err enotsup)

-- `none` as an argument is a null pointer; as a result it is a memory fault.
pub convert_format : Option Buffer → Option Buffer → ℕ → ℕ → ℕ → ℕ → ℕ → ℕ → Option (Ret Buffer)
convert_format none dst width height src_stride dst_stride src_format dst_format = some (err einval)
convert_format (some s) none width height src_stride dst_stride src_format dst_format =
    some (err einval)
convert_format (some s) (some d) width height src_stride dst_stride src_format dst_format =
    if (width == 0) || (height == 0)
    then some (err einval)
    else if ltb src_stride (width * 4) || ltb dst_stride (width * 4)
    then some (err einval)
    else convert_checked s d width height src_stride dst_stride src_format dst_format
