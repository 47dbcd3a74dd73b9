-- ===== src/Pixel/Tiling/Api.antt =====
-- drmtap_deswizzle as its callers see it: the image comes back, or the layout is refused.
use libdrmtap.Prelude.{
  ℕ, ◌*◌, ◌^◌, ◌≤◌, ◌<◌, ◌≡◌, ◌⊎◌, inl, inr, le→leb, refl, ◌∙◌, arith, Option, some,
}
use libdrmtap.Errno.{Ret, ok, err, einval, enotsup}
use libdrmtap.Memory.{Buffer}
use libdrmtap.Pixel.Tiling.{
  deswizzle, deswizzle_layout, copy_rows, deswizzle_intel_x_tiled, deswizzle_intel_y_tiled,
  vendor_of, type_of, mod_linear, mod_invalid, if_row_fits,
}
use libdrmtap.Pixel.Tiling.Copy.{source_row, copy_rows-Painted, x_tiled-Painted, y_tiled-Painted}
use libdrmtap.Pixel.Tiling.Layout.{
  Shows, Painted-Shows, LaidOut, ceil_div, x_row, x_col, y_row, y_col, x_pixels, y_pixels,
}

-- What the callers guarantee: non-empty images, `d` of at least `h * ds` bytes below 4 GiB, and
-- `size` bytes that are really there.
pub record Surfaces (s d : Buffer) (w h stride ds size : ℕ) : Type 0 where
  pub wide : 0 < w
  pub high : 0 < h
  pub narrow : w * 4 ≤ ds
  pub fits : h * ds ≤ d.len
  pub below_4g : h * ds < 2 ^ 32
  pub backed : size ≤ s.len

-- The call returned 0 and `d` now shows `img`.
abbrev pub Delivers : (ℕ → ℕ → ℕ) → ℕ → ℕ → ℕ → Buffer → Option (Ret Buffer) → Type 0
Delivers img w h ds d r = (out : Buffer) × (r ≡ some (ok out)) × Shows img w h ds d out

-- The modifiers of the layouts that are decoded on the CPU.
abbrev pub IsXTiled : ℕ → Type 0
IsXTiled m = (vendor_of m ≡ 1) × (type_of m ≡ 1)

abbrev pub IsYTiled : ℕ → Type 0
IsYTiled m = (vendor_of m ≡ 1) × ((type_of m ≡ 2) ⊎ (type_of m ≡ 3))

abbrev pub IsRows : ℕ → Type 0
IsRows m = (m ≡ mod_linear) ⊎ (m ≡ mod_invalid)

abbrev pub IsDecoded : ℕ → Type 0
IsDecoded m = IsRows m ⊎ (IsXTiled m ⊎ IsYTiled m)

module _ (s d : Buffer) (w h stride ds size m : ℕ) where
  reaches_layout :
      0 < w
      → 0 < h
      → deswizzle (some s) (some d) w h stride ds m size ≡ deswizzle_layout s d w h stride ds m size
  unfolding deswizzle
  reaches_layout p q = ground arith

  rows_chosen :
      IsRows m
      → deswizzle_layout s d w h stride ds m size
        ≡ if_row_fits w ds (copy_rows s d w h stride ds size)
  unfolding deswizzle_layout
  rows_chosen (inl e) = rw e refl
  rows_chosen (inr e) = rw e refl

  x_chosen :
      IsXTiled m
      → deswizzle_layout s d w h stride ds m size
        ≡ if_row_fits w ds (deswizzle_intel_x_tiled s d w h stride ds size)
  unfolding deswizzle_layout
  x_chosen (v, t) = ground arith

  y_chosen :
      IsYTiled m
      → deswizzle_layout s d w h stride ds m size
        ≡ if_row_fits w ds (deswizzle_intel_y_tiled s d w h stride ds size)
  unfolding deswizzle_layout
  y_chosen (v, t) = ground arith

  none_chosen : ¬ IsDecoded m → deswizzle_layout s d w h stride ds m size ≡ some (err enotsup)
  unfolding deswizzle_layout
  none_chosen n = ground arith

fits-ok :
    (w ds : ℕ) (r : Option Buffer) (out : Buffer)
    → w * 4 ≤ ds
    → r ≡ some out
    → if_row_fits w ds r ≡ some (ok out)
fits-ok w ds r out narrow e = rw (le→leb _ _ narrow, e) refl

-- An X-tiled surface that holds an image comes back as that image, row by row.
pub deswizzle-x_tiled :
    (s d : Buffer) (w h stride ds size m : ℕ) (img : ℕ → ℕ → ℕ)
    → Surfaces s d w h stride ds size
    → IsXTiled m
    → w * 4 ≤ stride
    → size < 2 ^ 32
    → ceil_div h 8 * ceil_div stride 512 * 4096 ≤ size
    → LaidOut (x_row stride) (x_col stride) size img s
    → Delivers img w h ds d (deswizzle (some s) (some d) w h stride ds m size)
deswizzle-x_tiled s d w h stride ds size m img g tiled in_row small whole held =
    let (out, e, shows) =
      Painted-Shows img _ w h ds d _ (x_pixels s w h stride size img in_row small held whole)
        (x_tiled-Painted s d w h stride ds size g.narrow g.fits g.below_4g g.backed) in
    (
      out,
      reaches_layout s d w h stride ds size m g.wide g.high
          ∙ x_chosen s d w h stride ds size m tiled
          ∙ fits-ok w ds _ out g.narrow e,
      shows,
    )

-- So does a Y-tiled or Yf-tiled one.
pub deswizzle-y_tiled :
    (s d : Buffer) (w h stride ds size m : ℕ) (img : ℕ → ℕ → ℕ)
    → Surfaces s d w h stride ds size
    → IsYTiled m
    → w * 4 ≤ stride
    → size < 2 ^ 32
    → ceil_div h 32 * ceil_div stride 128 * 4096 ≤ size
    → LaidOut (y_row stride) (y_col stride) size img s
    → Delivers img w h ds d (deswizzle (some s) (some d) w h stride ds m size)
deswizzle-y_tiled s d w h stride ds size m img g tiled in_row small whole held =
    let (out, e, shows) =
      Painted-Shows img _ w h ds d _ (y_pixels s w h stride size img in_row small held whole)
        (y_tiled-Painted s d w h stride ds size g.narrow g.fits g.below_4g g.backed) in
    (
      out,
      reaches_layout s d w h stride ds size m g.wide g.high
          ∙ y_chosen s d w h stride ds size m tiled
          ∙ fits-ok w ds _ out g.narrow e,
      shows,
    )

-- A linear or unstated layout is copied; rows that the source does not hold are zero.
pub deswizzle-rows :
    (s d : Buffer) (w h stride ds size m : ℕ)
    → Surfaces s d w h stride ds size
    → IsRows m
    → Delivers
        (source_row s size stride w)
        w
        h
        ds
        d
        (deswizzle (some s) (some d) w h stride ds m size)
deswizzle-rows s d w h stride ds size m g linear =
    let (out, e, shows) =
      Painted-Shows (source_row s size stride w) _ w h ds d _ (λ y k p q. refl)
        (copy_rows-Painted s d w h stride ds size g.narrow g.fits g.below_4g g.backed) in
    (
      out,
      reaches_layout s d w h stride ds size m g.wide g.high
          ∙ rows_chosen s d w h stride ds size m linear
          ∙ fits-ok w ds _ out g.narrow e,
      shows,
    )

-- The verdict on every modifier: a decoded layout is refused with EINVAL exactly if the
-- destination stride does not hold a row, and every other layout with ENOTSUP.
pub deswizzle_refusals :
    (s d : Buffer) (w h stride ds size m : ℕ)
    → 0 < w
    → 0 < h
    → (IsDecoded m
        → ds < w * 4
        → deswizzle (some s) (some d) w h stride ds m size ≡ some (err einval))
      × (¬ IsDecoded m → deswizzle (some s) (some d) w h stride ds m size ≡ some (err enotsup))
deswizzle_refusals s d w h stride ds size m p q = (
  (λ dec short. reaches_layout s d w h stride ds size m p q ∙ too_short dec short),
  (λ n. reaches_layout s d w h stride ds size m p q ∙ none_chosen s d w h stride ds size m n),
)
  where
    short_row : (r : Option Buffer) → ds < w * 4 → if_row_fits w ds r ≡ some (err einval)
    short_row r short = ground arith

    too_short :
        IsDecoded m → ds < w * 4 → deswizzle_layout s d w h stride ds m size ≡ some (err einval)
    too_short (inl rows) short = rows_chosen s d w h stride ds size m rows ∙ short_row _ short
    too_short (inr (inl x)) short = x_chosen s d w h stride ds size m x ∙ short_row _ short
    too_short (inr (inr y)) short = y_chosen s d w h stride ds size m y ∙ short_row _ short
