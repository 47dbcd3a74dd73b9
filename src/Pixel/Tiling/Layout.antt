-- ===== src/Pixel/Tiling/Layout.antt =====
-- The tiled layouts from the other side: which row and which byte of it stand at an address.
-- Detiling a surface that was laid out so gives the image back.
use libdrmtap.Prelude.{
  ℕ, ◌+◌, ◌-◌, ◌*◌, ◌/◌, ◌%◌, ◌^◌, ◌≤◌, ◌<◌, ◌≡◌, ap₂, ◌∙◌, u32, row-le, div_row, mod_row, arith,
  Option, some, ◌⊎◌, le→leb,
}
use libdrmtap.Memory.{Buffer}
use libdrmtap.Memory.Loops.{Painted, pixels_from}
use libdrmtap.Pixel.Tiling.{x_tiled_off, y_tiled_off}
use libdrmtap.Pixel.Tiling.Copy.{source_pixel}

-- `ceil(n / k)` without the code's wrap-around.
abbrev pub ceil_div : ℕ → ℕ → ℕ
ceil_div n k = (n + (k - 1)) / k

-- Row and byte of the row at address `a` of an X-tiled surface: 4096-byte tiles, 8 rows of 512.
abbrev pub x_row : ℕ → ℕ → ℕ
x_row stride a = a / 4096 / ceil_div stride 512 * 8 + a % 4096 / 512

abbrev pub x_col : ℕ → ℕ → ℕ
x_col stride a = a / 4096 % ceil_div stride 512 * 512 + a % 512

-- The same of a Y-tiled surface: 4096-byte tiles, 8 columns of 32 rows of 16 bytes.
abbrev pub y_row : ℕ → ℕ → ℕ
y_row stride a = a / 4096 / ceil_div stride 128 * 32 + a % 512 / 16

abbrev pub y_col : ℕ → ℕ → ℕ
y_col stride a = a / 4096 % ceil_div stride 128 * 128 + a % 4096 / 512 * 16 + a % 16

-- The surface holds the image: its byte at each address is the image's there.
abbrev pub LaidOut : (ℕ → ℕ) → (ℕ → ℕ) → ℕ → (ℕ → ℕ → ℕ) → Buffer → Type 0
LaidOut row col size img s = (a : ℕ) → a < size → s.at a ≡ img (row a) (col a)

-- `out` is `d` with the image's `h` rows of `4 w` bytes put in at a distance of `ds`.
pub record Shows (img : ℕ → ℕ → ℕ) (w h ds : ℕ) (d out : Buffer) : Type 0 where
  pub same_len : out.len ≡ d.len
  pub inside : (y k : ℕ) → y < h → k < w * 4 → out.at (y * ds + k) ≡ img y k
  pub outside :
      (i : ℕ) → ((y : ℕ) → y < h → (i < y * ds) ⊎ (y * ds + w * 4 ≤ i)) → out.at i ≡ d.at i

-- A painted image whose bytes are those of `img` shows it.
pub Painted-Shows :
    (img row : ℕ → ℕ → ℕ) (w h ds : ℕ) (d : Buffer) (r : Option Buffer)
    → ((y k : ℕ) → y < h → k < w * 4 → row y k ≡ img y k)
    → Painted ds (w * 4) row 0 h d r
    → (out : Buffer) × (r ≡ some out) × Shows img w h ds d out
Painted-Shows img row w h ds d r same p = (
  p.out,
  p.returns,
  record {
    same_len = p.same_len;
    inside = λ y k a b. p.inside y k (omega arith) a b ∙ same y k a b;
    outside = λ i apart. p.outside i (λ y a b. apart y b);
  },
)

module _ (stride y x k h size : ℕ) (in_row : x * 4 + 4 ≤ stride) (below : y < h) (in_pixel : k < 4)
    (small : size < 2 ^ 32) where
  module _ (whole : ceil_div h 8 * ceil_div stride 512 * 4096 ≤ size) where
    x_tile : ℕ
    x_tile = y / 8 * ceil_div stride 512 + x * 4 / 512

    x_tile_bounds :
        (ceil_div stride 512 ≤ ceil_div h 8 * ceil_div stride 512)
        × (y / 8 * ceil_div stride 512 + ceil_div stride 512 ≤ ceil_div h 8 * ceil_div stride 512)
    x_tile_bounds = (
      omega (arith, row-le 0 (ceil_div h 8) (ceil_div stride 512) (omega arith)),
      row-le (y / 8) (ceil_div h 8) (ceil_div stride 512) (omega arith),
    )

    x_off_exact : x_tiled_off stride y x ≡ x_tile * 4096 + y % 8 * 512 + x * 4 % 512
    unfolding x_tiled_off x_tile
    x_off_exact =
        let e : (u32 (stride + 511) ≡ stride + 511) × (u32 (x * 4) ≡ x * 4) =
          omega (arith, x_tile_bounds.0) in
        rw (e.0, e.1) (omega (arith, x_tile_bounds.0, x_tile_bounds.1))

    x_place :
        (x_row stride (x_tiled_off stride y x + k) ≡ y)
        × (x_col stride (x_tiled_off stride y x + k) ≡ x * 4 + k)
        × (x_tiled_off stride y x + 4 ≤ size)
    unfolding x_tile
    x_place = rw x_off_exact (
      rw (quotient, tile_row) (omega arith),
      rw (quotient, tile_col) (omega arith),
      omega (arith, x_tile_bounds.1),
    )
      where
        quotient : (x_tile * 4096 + y % 8 * 512 + x * 4 % 512 + k) / 4096 ≡ x_tile
        quotient = omega arith

        tile_row : x_tile / ceil_div stride 512 ≡ y / 8
        tile_row = div_row (y / 8) (ceil_div stride 512) (x * 4 / 512) (omega arith)

        tile_col : x_tile % ceil_div stride 512 ≡ x * 4 / 512
        tile_col = mod_row (y / 8) (ceil_div stride 512) (x * 4 / 512) (omega arith)

  module _ (whole : ceil_div h 32 * ceil_div stride 128 * 4096 ≤ size) where
    y_tile : ℕ
    y_tile = y / 32 * ceil_div stride 128 + x * 4 / 128

    y_tile_bounds :
        (ceil_div stride 128 ≤ ceil_div h 32 * ceil_div stride 128)
        × (y / 32 * ceil_div stride 128 + ceil_div stride 128 ≤ ceil_div h 32 * ceil_div stride 128)
    y_tile_bounds = (
      omega (arith, row-le 0 (ceil_div h 32) (ceil_div stride 128) (omega arith)),
      row-le (y / 32) (ceil_div h 32) (ceil_div stride 128) (omega arith),
    )

    y_off_exact :
        y_tiled_off stride y x
        ≡ y_tile * 4096 + x * 4 % 128 / 16 * 512 + y % 32 * 16 + x * 4 % 128 % 16
    unfolding y_tiled_off y_tile
    y_off_exact =
        let e : (u32 (stride + 127) ≡ stride + 127) × (u32 (x * 4) ≡ x * 4) =
          omega (arith, y_tile_bounds.0) in
        rw (e.0, e.1) (omega (arith, y_tile_bounds.0, y_tile_bounds.1))

    y_place :
        (y_row stride (y_tiled_off stride y x + k) ≡ y)
        × (y_col stride (y_tiled_off stride y x + k) ≡ x * 4 + k)
        × (y_tiled_off stride y x + 4 ≤ size)
    unfolding y_tile
    y_place = rw y_off_exact (
      rw (quotient, tile_row) (omega arith),
      rw (quotient, tile_col) (omega arith),
      omega (arith, y_tile_bounds.1),
    )
      where
        quotient :
            (y_tile * 4096 + x * 4 % 128 / 16 * 512 + y % 32 * 16 + x * 4 % 128 % 16 + k) / 4096
            ≡ y_tile
        quotient = omega arith

        tile_row : y_tile / ceil_div stride 128 ≡ y / 32
        tile_row = div_row (y / 32) (ceil_div stride 128) (x * 4 / 128) (omega arith)

        tile_col : y_tile % ceil_div stride 128 ≡ x * 4 / 128
        tile_col = mod_row (y / 32) (ceil_div stride 128) (x * 4 / 128) (omega arith)

module _ (s : Buffer) (w h stride size : ℕ) (img : ℕ → ℕ → ℕ) (in_row : w * 4 ≤ stride)
    (small : size < 2 ^ 32) where
  pub x_pixels :
      LaidOut (x_row stride) (x_col stride) size img s
      → ceil_div h 8 * ceil_div stride 512 * 4096 ≤ size
      → (y k : ℕ) → y < h
      → k < w * 4
      → pixels_from (source_pixel s size (x_tiled_off stride) y) 0 k ≡ img y k
  x_pixels held whole y k p q =
      let place =
        x_place stride y (0 + k / 4) (k % 4) h size (omega arith) p (omega arith) small whole in
      rw (le→leb _ _ place.2)
        (held _ (omega (arith, place.2)) ∙ ap₂ img place.0 (place.1 ∙ omega arith))

  pub y_pixels :
      LaidOut (y_row stride) (y_col stride) size img s
      → ceil_div h 32 * ceil_div stride 128 * 4096 ≤ size
      → (y k : ℕ) → y < h
      → k < w * 4
      → pixels_from (source_pixel s size (y_tiled_off stride) y) 0 k ≡ img y k
  y_pixels held whole y k p q =
      let place =
        y_place stride y (0 + k / 4) (k % 4) h size (omega arith) p (omega arith) small whole in
      rw (le→leb _ _ place.2)
        (held _ (omega (arith, place.2)) ∙ ap₂ img place.0 (place.1 ∙ omega arith))
