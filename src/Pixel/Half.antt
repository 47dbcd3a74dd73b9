-- ===== src/Pixel/Half.antt =====
-- half_to_float of src/pixel_convert.c: an IEEE 754 binary16 pattern to the binary32 pattern.
pub mod Value
use libdrmtap.Prelude.{
  ℕ, zero, suc, ◌+◌, ◌-◌, ◌*◌, ◌/◌, ◌^◌, bit_and, bit_or, ◌==◌, if◌then◌else◌, u32, Option, none,
  some,
}

-- while ((mant & 0x400) == 0) { mant <<= 1; exp--; } with fuel; `none` means that it ran out.
unfoldable pub normalise : ℕ → ℕ → ℕ → Option (ℕ × ℕ)
normalise zero mant exp = none
normalise (suc fuel) mant exp =
    let rest = normalise fuel (u32 (mant * 2)) (u32 (exp + 2 ^ 32 - 1)) in
    if bit_and mant 0x400 == 0 then rest else some (mant, exp)

-- The shifts that a 10-bit mantissa can need, and the test that ends the loop.
abbrev pub shift_fuel : ℕ
shift_fuel = 11

-- sign | (exp << 23) | (mant << 13)
unfoldable pub float_bits : ℕ → ℕ → ℕ → ℕ
float_bits sign exp mant = bit_or (bit_or sign (u32 (exp * 2 ^ 23))) (u32 (mant * 2 ^ 13))

unfoldable pub subnormal_bits : ℕ → ℕ → Option ℕ
subnormal_bits sign mant = elim (normalise shift_fuel mant (127 - 15 + 1)) [
  | none ↦ none
  | some (m, e) ↦ some (float_bits sign e (bit_and m 0x3ff))
]

unfoldable pub half_to_float : ℕ → Option ℕ
half_to_float h =
    let sign = u32 (bit_and h 0x8000 * 2 ^ 16) in
    let exp = bit_and (h / 2 ^ 10) 0x1f in
    let mant = bit_and h 0x3ff in
    if exp == 0
    then if mant == 0 then some sign else subnormal_bits sign mant
    else if exp == 0x1f
    then some (bit_or (bit_or sign 0x7f80_0000) (u32 (mant * 2 ^ 13)))
    else some (float_bits sign (u32 (u32 (exp + 2 ^ 32 - 15) + 127)) mant)
