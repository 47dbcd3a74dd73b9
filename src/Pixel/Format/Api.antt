-- ===== src/Pixel/Format/Api.antt =====
-- drmtap_convert_format as its callers see it.
use libdrmtap.Prelude.{
  ℕ, ◌+◌, ◌*◌, ◌/◌, ◌^◌, ◌≤◌, ◌<◌, ◌≡◌, ◌≢◌, ◌⊎◌, inl, inr, le→leb, refl, ap, ◌∙◌, arith, Option,
  some, true, Bool-cases, u32, row-le, if◌then◌else◌,
}
use libdrmtap.Errno.{Ret, ok, err, einval, enotsup}
use libdrmtap.Memory.{Buffer, write, memcpy, word_at, byte_of}
use libdrmtap.Memory.Loops.{Painted, loop-Painted}
use libdrmtap.Pixel.Format.{
  ar30_pixel, copy_same, convert_checked, convert_format, is_ten_bit, is_bgr30, is_rgb8, abgr8888,
  done,
}
use libdrmtap.Pixel.Format.Channels.{argb, a2c10, ar30_pixel-rgb, ar30_pixel-bgr}
use libdrmtap.Pixel.Tiling.Layout.{Shows, Painted-Shows}

-- Two images of `h` rows that lie in their buffers, below 4 GiB, and whose strides hold a row.
pub record Images (s d : Buffer) (w h ss ds : ℕ) : Type 0 where
  pub wide : 0 < w
  pub high : 0 < h
  pub src_narrow : w * 4 ≤ ss
  pub src_fits : h * ss ≤ s.len
  pub src_4g : h * ss < 2 ^ 32
  pub narrow : w * 4 ≤ ds
  pub fits : h * ds ≤ d.len
  pub below_4g : h * ds < 2 ^ 32

-- The call returned 0: pixel `x` of row `y` is `f` of the source's, and the bytes between the
-- rows are the old ones.
abbrev pub Maps : (ℕ → ℕ) → Buffer → Buffer → ℕ → ℕ → ℕ → ℕ → Option (Ret Buffer) → Type 0
Maps f s d w h ss ds r =
    (out : Buffer) × (r ≡ some (ok out))
    × ((y x : ℕ) → y < h → x < w → word_at out (y * ds + x * 4) ≡ f (word_at s (y * ss + x * 4)))
    × ((i : ℕ) → ((y : ℕ) → y < h → (i < y * ds) ⊎ (y * ds + w * 4 ≤ i)) → out.at i ≡ d.at i)

abbrev converted : (ℕ → ℕ) → Buffer → ℕ → ℕ → ℕ → ℕ → ℕ
converted f s ss y x k = byte_of (f (word_at s (y * ss + x * 4))) k

module _ (s d : Buffer) (w h ss ds sf df : ℕ) where
  reaches_checked :
      Images s d w h ss ds
      → convert_format (some s) (some d) w h ss ds sf df ≡ convert_checked s d w h ss ds sf df
  unfolding convert_format
  reaches_checked g = ground (arith, g.wide, g.high, g.src_narrow, g.narrow)

-- The conversions that exist between two different formats.
abbrev pub IsSupported : ℕ → ℕ → Type 0
IsSupported sf df = ((is_ten_bit sf ≡ true) ⊎ (sf ≡ abgr8888)) × (is_rgb8 df ≡ true)

-- The refusals: a stride that does not hold a row is EINVAL whatever the formats, and two
-- different formats without a conversion are ENOTSUP.
pub convert_format_refusals :
    (s d : Buffer) (w h ss ds sf df : ℕ)
    → 0 < w
    → 0 < h
    → ((ss < w * 4) ⊎ (ds < w * 4)
        → convert_format (some s) (some d) w h ss ds sf df ≡ some (err einval))
      × (w * 4 ≤ ss
          → w * 4 ≤ ds
          → sf ≢ df
          → ¬ IsSupported sf df
          → convert_format (some s) (some d) w h ss ds sf df ≡ some (err enotsup))
unfolding convert_format convert_checked
convert_format_refusals s d w h ss ds sf df p q =
    ((λ short. ground arith), λ a b ne n. ground arith)

module _ (s d : Buffer) (w h ss ds : ℕ) (g : Images s d w h ss ds) where
  copy_same-write :
      (y : ℕ) (d' : Buffer)
      → y < h
      → memcpy d' (u32 (y * ds)) s (u32 (y * ss)) (u32 (w * 4))
        ≡ write d' (y * ds) (w * 4) (λ k. s.at (y * ss + k))
  unfolding memcpy
  copy_same-write y d' p =
      let open_src : y * ss + ss ≤ h * ss = row-le y h ss p in
      let open_dst : y * ds + ds ≤ h * ds = row-le y h ds p in
      let exact : (u32 (y * ss) ≡ y * ss) × (u32 (y * ds) ≡ y * ds) × (u32 (w * 4) ≡ w * 4) =
        omega (arith, g.wide, g.src_narrow, g.narrow, g.src_4g, g.below_4g) in
      rw
        (
          exact.0,
          exact.1,
          exact.2,
          le→leb (y * ss + w * 4) s.len (omega (arith, g.src_narrow, g.src_fits)),
        )
        refl

  copy_same-Painted : Painted ds (w * 4) (λ y k. s.at (y * ss + k)) 0 h d (copy_same s d w h ss ds)
  unfolding copy_same
  copy_same-Painted =
      loop-Painted ds (w * 4) (λ y k. s.at (y * ss + k)) g.narrow h d.len _
        (λ y d' p l. copy_same-write y d' p) h 0 d (omega arith) g.fits refl

-- The same format, whichever it is, is copied byte for byte.
pub convert_format_same :
    (s d : Buffer) (w h ss ds f : ℕ)
    → Images s d w h ss ds
    → (out : Buffer) × (convert_format (some s) (some d) w h ss ds f f ≡ some (ok out))
      × Shows (λ y k. s.at (y * ss + k)) w h ds d out
convert_format_same s d w h ss ds f g =
    let (out, e, shows) =
      Painted-Shows (λ y k. s.at (y * ss + k)) _ w h ds d _ (λ y k p q. refl)
        (copy_same-Painted s d w h ss ds g) in
    (out, reaches_checked s d w h ss ds f f g ∙ same_chosen ∙ ap done e, shows)
  where
    same_chosen : convert_checked s d w h ss ds f f ≡ done (copy_same s d w h ss ds)
    same_chosen = unfold convert_checked in ground arith

-- The channels of a 10-bit image after the conversion: the word of a pixel with 2 bits of alpha
-- and the 10-bit channels `hi mid lo` becomes opaque alpha and the top 8 bits of each, in the
-- source's order for RGB and with the outer two swapped for BGR.
pub ten_bit_channels :
    (sf a hi mid lo : ℕ)
    → hi < 1024
    → mid < 1024
    → lo < 1024
    → ar30_pixel (is_bgr30 sf) (a2c10 a hi mid lo) ≡ (
        if is_bgr30 sf
        then argb 255 (lo / 4) (mid / 4) (hi / 4)
        else argb 255 (hi / 4) (mid / 4) (lo / 4))
ten_bit_channels sf a hi mid lo p q t = elim (Bool-cases (is_bgr30 sf)) [
  | inl bgr ↦ rw bgr (ar30_pixel-bgr a lo mid hi t q p)
  | inr rgb ↦ rw rgb (ar30_pixel-rgb a hi mid lo p q t)
]
