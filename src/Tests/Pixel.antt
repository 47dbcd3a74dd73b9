-- ===== src/Tests/Pixel.antt =====
-- The pixel code of src/pixel_convert.c on small images.
use libdrmtap.Prelude.{ℕ, ◌+◌, ◌*◌, ◌%◌, ◌<◌, ◌≡◌, refl, arith, some, inl}
use libdrmtap.Errno.{err, einval, enotsup}
use libdrmtap.Memory.{Buffer}
use libdrmtap.Pixel.Tiling.{deswizzle, x_tiled_off}
use libdrmtap.Pixel.Tiling.Layout.{x_row, x_col, y_row, y_col}
use libdrmtap.Pixel.Tiling.Copy.{source_row}
use libdrmtap.Pixel.Tiling.Api.{
  Surfaces, Delivers, IsDecoded, deswizzle-x_tiled, deswizzle-y_tiled, deswizzle-rows,
  deswizzle_refusals,
}
use libdrmtap.Pixel.Format.Api.{Images}
use libdrmtap.Pixel.Half.{half_to_float, float_bits}
use libdrmtap.Pixel.Half.Value.{Same, half_to_float-Same}

-- An image of 2 by 2 pixels, its X- and Y-tiled surfaces, and an empty destination.
abbrev gradient : ℕ → ℕ → ℕ
gradient y k = (y * 16 + k) % 256

abbrev x_surface : Buffer
x_surface = record { len = 4096; at = λ a. gradient (x_row 512 a) (x_col 512 a) }

abbrev y_surface : Buffer
y_surface = record { len = 4096; at = λ a. gradient (y_row 128 a) (y_col 128 a) }

abbrev blank : Buffer
blank = record { len = 16; at = λ i. 0 }

abbrev rows : Buffer
rows = record { len = 16; at = λ i. i * 3 % 256 }

abbrev in_x : Surfaces x_surface blank 2 2 512 8 4096
in_x = record {
  wide = omega arith;
  high = omega arith;
  narrow = omega arith;
  fits = omega arith;
  below_4g = omega arith;
  backed = omega arith;
}

abbrev in_y : Surfaces y_surface blank 2 2 128 8 4096
in_y = record {
  wide = omega arith;
  high = omega arith;
  narrow = omega arith;
  fits = omega arith;
  below_4g = omega arith;
  backed = omega arith;
}

abbrev in_rows : Surfaces rows blank 2 2 8 8 16
in_rows = record {
  wide = omega arith;
  high = omega arith;
  narrow = omega arith;
  fits = omega arith;
  below_4g = omega arith;
  backed = omega arith;
}

abbrev between : Images rows blank 2 2 8 8
between = record {
  wide = omega arith;
  high = omega arith;
  src_narrow = omega arith;
  src_fits = omega arith;
  src_4g = omega arith;
  narrow = omega arith;
  fits = omega arith;
  below_4g = omega arith;
}

abbrev i915_x_tiled : ℕ
i915_x_tiled = 0x0100_0000_0000_0001

abbrev i915_y_tiled : ℕ
i915_y_tiled = 0x0100_0000_0000_0002

abbrev arm_afbc : ℕ
arm_afbc = 0x0800_0000_0000_0001

-- Row 1 of the second tile row stands one row of tiles further.
x_tiled_off_9 : x_tiled_off 1024 9 130 ≡ 3 * 4096 + 512 + 8
unfolding x_tiled_off
x_tiled_off_9 = refl

deswizzle-x_tiled_example :
    Delivers gradient 2 2 8 blank
      (deswizzle (some x_surface) (some blank) 2 2 512 8 i915_x_tiled 4096)
deswizzle-x_tiled_example =
    deswizzle-x_tiled x_surface blank 2 2 512 8 4096 i915_x_tiled gradient in_x (refl, refl)
      (omega arith) (omega arith) (omega arith) (λ a p. refl)

deswizzle-y_tiled_example :
    Delivers gradient 2 2 8 blank
      (deswizzle (some y_surface) (some blank) 2 2 128 8 i915_y_tiled 4096)
deswizzle-y_tiled_example =
    deswizzle-y_tiled y_surface blank 2 2 128 8 4096 i915_y_tiled gradient in_y (refl, inl refl)
      (omega arith) (omega arith) (omega arith) (λ a p. refl)

deswizzle-rows_example :
    Delivers (source_row rows 16 8 2) 2 2 8 blank (deswizzle (some rows) (some blank) 2 2 8 8 0 16)
deswizzle-rows_example = deswizzle-rows rows blank 2 2 8 8 16 0 in_rows (inl refl)

deswizzle_refusals_example :
    (IsDecoded arm_afbc
      → 8 < 2 * 4
      → deswizzle (some rows) (some blank) 2 2 8 8 arm_afbc 16 ≡ some (err einval))
    × (¬ IsDecoded arm_afbc
        → deswizzle (some rows) (some blank) 2 2 8 8 arm_afbc 16 ≡ some (err enotsup))
deswizzle_refusals_example =
    deswizzle_refusals rows blank 2 2 8 8 16 arm_afbc (omega arith) (omega arith)

-- 1.0, and the smallest subnormal.
half_to_float_one : half_to_float 0x3c00 ≡ some 0x3f80_0000
unfolding half_to_float float_bits
half_to_float_one = refl

half_to_float-Same_example : Same 1 (half_to_float 1)
half_to_float-Same_example = half_to_float-Same 1 (omega arith) (λ e. absurd (omega (arith, e)))
