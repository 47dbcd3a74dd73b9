-- ===== src/Pixel/Tiling/Copy.antt =====
-- What the detiling loops write: every pixel from its place in the source, and nothing else.
use libdrmtap.Prelude.{
  ℕ, ◌+◌, ◌*◌, ◌^◌, ◌≤◌, ◌<◌, ◌≡◌, refl, ltb, leb, if◌then◌else◌, u32, row-le, Bool-cases, true,
  false, inl, inr, arith, leb→le,
}
use libdrmtap.Memory
use libdrmtap.Memory.{Buffer, write, memcpy, memset, loop}
use libdrmtap.Memory.Loops.{Painted, pixels_from, for_pixels-Painted, loop-Painted, write_ext}
use libdrmtap.Pixel.Tiling.{
  x_tiled_off, y_tiled_off, copy_pixel, copy_rows, deswizzle_intel_x_tiled, deswizzle_intel_y_tiled,
}

-- Byte `k` of the pixel that the source keeps at `off y x`, or 0 where the source ends before.
abbrev pub source_pixel : Buffer → ℕ → (ℕ → ℕ → ℕ) → ℕ → ℕ → ℕ → ℕ
source_pixel s src_size off y x k = if leb (off y x + 4) src_size then s.at (off y x + k) else 0

-- Byte `k` of row `y` of a linear source.
abbrev pub source_row : Buffer → ℕ → ℕ → ℕ → ℕ → ℕ → ℕ
source_row s src_size stride width y k =
    if ltb src_size (y * stride + width * 4) then 0 else s.at (y * stride + k)

-- The destination offset does not wrap: the whole image lies below 2 ^ 32.
pub dst_off_exact :
    (y x h ds w : ℕ)
    → y < h
    → x < w
    → w * 4 ≤ ds
    → h * ds < 2 ^ 32
    → u32 (y * ds) + u32 (x * 4) ≡ y * ds + x * 4
dst_off_exact y x h ds w p q r t = omega (arith, row-le y h ds p)

module _ (s d : Buffer) (w h ds size : ℕ) (off : ℕ → ℕ → ℕ) (narrow : w * 4 ≤ ds)
    (fits : h * ds ≤ d.len) (below_4g : h * ds < 2 ^ 32) (backed : size ≤ s.len) where
  copy_pixel-write :
      (y x : ℕ) (d' : Buffer)
      → y < h
      → x < w
      → copy_pixel s size (off y x) ds y x d'
        ≡ write d' (y * ds + x * 4) 4 (source_pixel s size off y x)
  unfolding copy_pixel memcpy memset
  copy_pixel-write y x d' p q =
      rw (dst_off_exact y x h ds w p q narrow below_4g)
        (elim (Bool-cases (leb (off y x + 4) size)) [
          | inl held ↦ rw (held, lt_held held) (write_ext d' (y * ds + x * 4) 4 _ _ (λ k. rw held))
          | inr past ↦ rw past (write_ext d' (y * ds + x * 4) 4 _ _ (λ k. rw past))
        ])
    where
      lt_held : leb (off y x + 4) size ≡ true → leb (off y x + 4) s.len ≡ true
      lt_held e = ground (arith, leb→le (off y x + 4) size e)

  pub copy_pixels-Painted :
      Painted ds
        (w * 4)
        (λ y. pixels_from (source_pixel s size off y) 0)
        0
        h
        d
        (Memory.for_pixels w h (λ y x. copy_pixel s size (off y x) ds y x) d)
  copy_pixels-Painted =
      for_pixels-Painted w h ds (source_pixel s size off)
        (λ y x. copy_pixel s size (off y x) ds y x) d narrow fits
        (λ y x d' p q l. copy_pixel-write y x d' p q)

module _ (s d : Buffer) (w h stride ds size : ℕ) (narrow : w * 4 ≤ ds) (fits : h * ds ≤ d.len)
    (below_4g : h * ds < 2 ^ 32) (backed : size ≤ s.len) where
  -- The X-tiled decoder reads nothing outside the source and writes exactly the image.
  pub x_tiled-Painted :
      Painted ds
        (w * 4)
        (λ y. pixels_from (source_pixel s size (x_tiled_off stride) y) 0)
        0
        h
        d
        (deswizzle_intel_x_tiled s d w h stride ds size)
  unfolding deswizzle_intel_x_tiled
  x_tiled-Painted =
      copy_pixels-Painted s d w h ds size (x_tiled_off stride) narrow fits below_4g backed

  pub y_tiled-Painted :
      Painted ds
        (w * 4)
        (λ y. pixels_from (source_pixel s size (y_tiled_off stride) y) 0)
        0
        h
        d
        (deswizzle_intel_y_tiled s d w h stride ds size)
  unfolding deswizzle_intel_y_tiled
  y_tiled-Painted =
      copy_pixels-Painted s d w h ds size (y_tiled_off stride) narrow fits below_4g backed

  copy_row-write :
      (y : ℕ) (d' : Buffer)
      → y < h
      → (if ltb size (y * stride + w * 4)
          then memset d' (u32 (y * ds)) 0 (w * 4)
          else memcpy d' (u32 (y * ds)) s (y * stride) (u32 (w * 4)))
        ≡ write d' (y * ds) (w * 4) (source_row s size stride w y)
  unfolding memcpy memset
  copy_row-write y d' p =
      let exact : (u32 (y * ds) ≡ y * ds) × (u32 (w * 4) ≡ w * 4) =
        omega (arith, row-le y h ds p) in
      rw (exact.0, exact.1)
        (elim (Bool-cases (ltb size (y * stride + w * 4))) [
          | inl past ↦ rw past (write_ext d' (y * ds) (w * 4) _ _ (λ k. rw past))
          | inr held ↦ rw (held, in_source held) (write_ext d' (y * ds) (w * 4) _ _ (λ k. rw held))
        ])
    where
      in_source : ltb size (y * stride + w * 4) ≡ false → leb (y * stride + w * 4) s.len ≡ true
      in_source e = ground arith

  -- So does the linear copy; a row that the source does not hold is zero.
  pub copy_rows-Painted :
      Painted ds (w * 4) (source_row s size stride w) 0 h d (copy_rows s d w h stride ds size)
  unfolding copy_rows
  copy_rows-Painted =
      loop-Painted ds (w * 4) (source_row s size stride w) narrow h d.len _
        (λ y d' p l. copy_row-write y d' p) h 0 d (omega arith) fits refl
