-- ===== src/Pixel/Format/Channels.antt =====
-- What the word converters do to the channels of a pixel.
use libdrmtap.Prelude.{
  ℕ, ◌+◌, ◌*◌, ◌/◌, ◌^◌, ◌<◌, ◌≡◌, bit_and, bit_or, ap, ap₂, ap₄, ◌∙◌, arith, or_shifted, and_mask,
  true, false, u8, u32,
}
use libdrmtap.Pixel.Format.{pack_argb, ar30_pixel, abgr_pixel}

-- A pixel of four 8-bit channels, the top one first, as a number.
abbrev pub argb : ℕ → ℕ → ℕ → ℕ → ℕ
argb a r g b = a * 16777216 + r * 65536 + g * 256 + b

-- A pixel of 2 bits of alpha and three 10-bit channels.
abbrev pub a2c10 : ℕ → ℕ → ℕ → ℕ → ℕ
a2c10 a hi mid lo = a * 1073741824 + hi * 1048576 + mid * 1024 + lo

-- The shifts and `|` of the code put the four channels side by side.
pub pack_argb-argb :
    (a r g b : ℕ) → a < 256 → r < 256 → g < 256 → b < 256 → pack_argb a r g b ≡ argb a r g b
unfolding pack_argb
pack_argb-argb a r g b p q t u =
    ap (λ t. bit_or (bit_or t (u32 (g * 2 ^ 8))) b) two
    ∙ ap (λ t. bit_or t b) three
    ∙ or_shifted 8 ((a * 256 + r) * 256 + g) b u
    ∙ omega arith
  where
    two : bit_or (u32 (a * 2 ^ 24)) (u32 (r * 2 ^ 16)) ≡ (a * 256 + r) * 2 ^ 16
    two =
        ap₂ bit_or (omega arith) (omega arith)
        ∙ or_shifted 24 a (r * 2 ^ 16) (omega arith)
        ∙ omega arith

    three : bit_or ((a * 256 + r) * 2 ^ 16) (u32 (g * 2 ^ 8)) ≡ ((a * 256 + r) * 256 + g) * 2 ^ 8
    three =
        ap (bit_or ((a * 256 + r) * 2 ^ 16)) (omega arith)
        ∙ or_shifted 16 (a * 256 + r) (g * 2 ^ 8) (omega arith)
        ∙ omega arith

-- The top 8 bits of the three 10-bit channels, whatever order they are then put in.
top_bits :
    (a hi mid lo : ℕ)
    → hi < 1024
    → mid < 1024
    → lo < 1024
    → (u8 (bit_and (a2c10 a hi mid lo / 2 ^ 22) 0xff) ≡ hi / 4)
      × (u8 (bit_and (a2c10 a hi mid lo / 2 ^ 12) 0xff) ≡ mid / 4)
      × (u8 (bit_and (a2c10 a hi mid lo / 2 ^ 2) 0xff) ≡ lo / 4)
top_bits a hi mid lo p q t = (
  omega (arith, and_mask 8 (a2c10 a hi mid lo / 2 ^ 22)),
  omega (arith, and_mask 8 (a2c10 a hi mid lo / 2 ^ 12)),
  omega (arith, and_mask 8 (a2c10 a hi mid lo / 2 ^ 2)),
)

pub ar30_pixel-rgb :
    (a r g b : ℕ)
    → r < 1024
    → g < 1024
    → b < 1024
    → ar30_pixel false (a2c10 a r g b) ≡ argb 255 (r / 4) (g / 4) (b / 4)
unfolding ar30_pixel
ar30_pixel-rgb a r g b p q t =
    let bits = top_bits a r g b p q t in
    rw (bits.0, bits.1, bits.2)
      (pack_argb-argb 255 (r / 4) (g / 4) (b / 4) (omega arith) (omega arith) (omega arith)
        (omega arith))

pub ar30_pixel-bgr :
    (a r g b : ℕ)
    → r < 1024
    → g < 1024
    → b < 1024
    → ar30_pixel true (a2c10 a b g r) ≡ argb 255 (r / 4) (g / 4) (b / 4)
unfolding ar30_pixel
ar30_pixel-bgr a r g b p q t =
    let bits = top_bits a b g r t q p in
    rw (bits.0, bits.1, bits.2)
      (pack_argb-argb 255 (r / 4) (g / 4) (b / 4) (omega arith) (omega arith) (omega arith)
        (omega arith))

pub abgr_pixel-argb :
    (a r g b : ℕ) → a < 256 → r < 256 → g < 256 → b < 256 → abgr_pixel (argb a b g r) ≡ argb a r g b
unfolding abgr_pixel
abgr_pixel-argb a r g b p q t u =
    ap₄ pack_argb (omega arith) (omega arith) (omega arith) (omega arith)
    ∙ pack_argb-argb a r g b p q t u
