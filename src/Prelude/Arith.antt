-- ===== src/Prelude/Arith.antt =====
-- Machine words and the arithmetic that the address computations share.
use Prim.Native.Nat.{ℕ, ◌+◌, ◌*◌, ◌/◌, ◌%◌, ◌^◌, ◌≤◌, ◌<◌}
use mathlib.Core.Path.{◌≡◌}
use mathlib.Core.Logic.{◌↔◌}
use native.Mathlib.Decide.{dec_le}
use native.Mathlib.Omega.{arith}

abbrev pub u8 : ℕ → ℕ
u8 n = n % 2 ^ 8

abbrev pub u16 : ℕ → ℕ
u16 n = n % 2 ^ 16

abbrev pub u32 : ℕ → ℕ
u32 n = n % 2 ^ 32

abbrev pub u64 : ℕ → ℕ
u64 n = n % 2 ^ 64

pub row-le : (y h s : ℕ) → y < h → y * s + s ≤ h * s
row-le y h s p = grind arith

pub div_row : (q n r : ℕ) → r < n → (q * n + r) / n ≡ q
div_row q n r h = grind arith

pub mod_row : (q n r : ℕ) → r < n → (q * n + r) % n ≡ r
mod_row q n r h = grind arith

-- A function of four arguments at equal arguments.
pub ap₄ :
    (f : ℕ → ℕ → ℕ → ℕ → ℕ) {a b c d a' b' c' d' : ℕ}
    → a ≡ a'
    → b ≡ b'
    → c ≡ c'
    → d ≡ d'
    → f a b c d ≡ f a' b' c' d'
ap₄ f p q r s = cc

pub mul_mono : (a b s : ℕ) → a ≤ b → a * s ≤ b * s
mul_mono a b s h = grind arith

-- `h <= m / s` is the bound on the product, without the product.
pub le_div_iff : (h s m : ℕ) → 0 < s → (h ≤ m / s) ↔ (h * s ≤ m)
le_div_iff h s m pos = (
  (λ p. omega (arith, mul_mono h (m / s) s p, split)),
  λ p. elim (dec_le h (m / s)) [
    | yes q ↦ q
    | no q ↦ absurd (omega (arith, mul_mono (m / s + 1) h s (omega arith), split))
  ],
)
  where
    split : (m / s * s ≤ m) × (m < (m / s + 1) * s)
    split = grind arith

pub mul-le-square : (a b k : ℕ) → a ≤ k → b ≤ k → a * b ≤ k * k
mul-le-square a b k p q = grind arith
