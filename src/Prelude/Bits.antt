-- ===== src/Prelude/Bits.antt =====
-- `|` of disjoint fields and `&` with a mask of low ones, as sums and remainders.
use Prim.Native.Nat.{
  ℕ, zero, suc, ◌+◌, ◌-◌, ◌*◌, ◌/◌, ◌%◌, ◌^◌, ◌≤◌, ◌<◌, min, max, bit_and, bit_or, bitwise, digits,
  bit_and-bitwise, bit_or-bitwise,
}
use mathlib.Core.Path.{◌≡◌, refl, ap, ◌∙◌}
use mathlib.Core.Bool.{Bool, true, ◌&&◌}
use native.Mathlib.Nat.{pow-suc, one-le-pow}
use native.Mathlib.Omega.{arith}

-- The fuel of the digit recursion does not matter once it covers the first number.
module _ (tail : ℕ → ℕ) (op : ℕ → ℕ → ℕ) where
  enough_fuel : (f g a b : ℕ) → a ≤ f → a ≤ g → digits tail op f a b ≡ digits tail op g a b
  enough_fuel zero zero zero b p q = refl
  enough_fuel zero (suc g) zero b p q = refl
  enough_fuel (suc f) zero zero b p q = refl
  enough_fuel (suc f) (suc g) zero b p q = refl
  enough_fuel zero g (suc a) b p q = absurd (omega arith)
  enough_fuel (suc f) zero (suc a) b p q = absurd (omega arith)
  enough_fuel (suc f) (suc g) (suc a) b p q =
      ap (λ t. t * 2 + op (suc a % 2) (b % 2))
        (enough_fuel f g (suc a / 2) (b / 2) (omega arith) (omega arith))

  lowest_digit :
      (a b : ℕ)
      → bitwise tail op (suc a) b ≡ bitwise tail op (suc a / 2) (b / 2) * 2 + op (suc a % 2) (b % 2)
  lowest_digit a b =
      ap (λ t. t * 2 + op (suc a % 2) (b % 2))
        (enough_fuel a (suc a / 2) (suc a / 2) (b / 2) (omega arith) (omega arith))

or_digit : (a b : ℕ) → bit_or a b ≡ bit_or (a / 2) (b / 2) * 2 + max (a % 2) (b % 2)
or_digit zero b = simp bit_or-bitwise (omega arith)
or_digit (suc a) b = simp bit_or-bitwise (lowest_digit (λ y. y) max a b)

and_digit : (a b : ℕ) → bit_and a b ≡ bit_and (a / 2) (b / 2) * 2 + min (a % 2) (b % 2)
and_digit zero b = simp bit_and-bitwise (omega arith)
and_digit (suc a) b = simp bit_and-bitwise (lowest_digit (λ y. 0) min a b)

zero-bit_or : (b : ℕ) → bit_or 0 b ≡ b
zero-bit_or b = bit_or-bitwise 0 b

or_zero_below : (n a : ℕ) → a ≤ n → bit_or a 0 ≡ a
or_zero_below n zero h = zero-bit_or 0
or_zero_below zero (suc a) h = absurd (omega arith)
or_zero_below (suc n) (suc a) h =
    omega (arith, or_digit (suc a) 0, or_zero_below n (suc a / 2) (omega arith))

pub bit_or-zero : (a : ℕ) → bit_or a 0 ≡ a
bit_or-zero a = or_zero_below a a (omega arith)

and_zero_below : (n a : ℕ) → a ≤ n → bit_and a 0 ≡ 0
and_zero_below n zero h = bit_and-bitwise 0 0
and_zero_below zero (suc a) h = absurd (omega arith)
and_zero_below (suc n) (suc a) h =
    omega (arith, and_digit (suc a) 0, and_zero_below n (suc a / 2) (omega arith))

pub bit_and-zero : (a : ℕ) → bit_and a 0 ≡ 0
bit_and-zero a = and_zero_below a a (omega arith)

double_pow : (q k : ℕ) → q * 2 ^ suc k ≡ 2 * (q * 2 ^ k)
double_pow q k = omega (arith, ap (λ (t : ℕ). q * t) (pow-suc 2 k))

-- `(q << k) | r` is a sum where `r` fits in `k` bits.
pub or_shifted : (k q r : ℕ) → r < 2 ^ k → bit_or (q * 2 ^ k) r ≡ q * 2 ^ k + r
or_shifted zero q r h =
    let r0 : r ≡ 0 = omega arith in rw r0 (bit_or-zero (q * 2 ^ 0) ∙ omega arith)
or_shifted (suc k) q r h = ground (
  arith,
  or_digit (q * 2 ^ suc k) r,
  double_pow q k,
  or_shifted k q (r / 2) (omega (arith, pow-suc 2 k)),
)

and_ones : (k q r : ℕ) → r < 2 ^ k → bit_and (q * 2 ^ k + r) (2 ^ k - 1) ≡ r
and_ones zero q r h = let r0 : r ≡ 0 = omega arith in rw r0 (bit_and-zero (q * 2 ^ 0 + 0))
and_ones (suc k) q r h = ground (
  arith,
  and_digit (q * 2 ^ suc k + r) (2 ^ suc k - 1),
  double_pow q k,
  pow-suc 2 k,
  one-le-pow k 2,
  and_ones k q (r / 2),
)

-- `a & (2^k - 1)` is the remainder.
pub and_mask : (k a : ℕ) → bit_and a (2 ^ k - 1) ≡ a % 2 ^ k
and_mask k a = ground (arith, one-le-pow k 2, and_ones k (a / 2 ^ k) (a % 2 ^ k))

-- A statement about every number below `n`, by evaluation.
unfoldable pub holds_below : ℕ → (ℕ → Bool) → Bool
holds_below zero test = true
holds_below (suc n) test = test n && holds_below n test

pub holds_at : (n : ℕ) (test : ℕ → Bool) (x : ℕ) → x < n → holds_below n test ≡ true → test x ≡ true
unfolding holds_below
holds_at zero test x h all = absurd (omega arith)
holds_at (suc n) test x h all = ground (arith, holds_at n test x)

pub pow-add : (a b : ℕ) → 2 ^ (a + b) ≡ 2 ^ a * 2 ^ b
pow-add zero b = ap (λ t. 2 ^ t) zero_left ∙ omega arith
  where
    zero_left : zero + b ≡ b
    zero_left = omega arith
pow-add (suc a) b =
    ap (λ t. 2 ^ t) suc_left
    ∙ pow-suc 2 (a + b)
    ∙ omega (arith, pow-add a b, ap (λ (t : ℕ). t * 2 ^ b) (pow-suc 2 a))
  where
    suc_left : suc a + b ≡ suc (a + b)
    suc_left = omega arith

-- `a & (1 << k)` keeps bit `k`, where `n` is `a >> k` and `r` the bits below.
pub and_bit : (k n r : ℕ) → r < 2 ^ k → bit_and (n * 2 ^ k + r) (2 ^ k) ≡ n % 2 * 2 ^ k
and_bit zero n r h =
    let r0 : r ≡ 0 = omega arith in
    rw r0 (and_digit (n * 2 ^ 0 + 0) 1 ∙ omega (arith, bit_and-zero ((n * 2 ^ 0 + 0) / 2)))
and_bit (suc k) n r h = ground (
  arith,
  and_digit (n * 2 ^ suc k + r) (2 ^ suc k),
  double_pow n k,
  double_pow (n % 2) k,
  pow-suc 2 k,
  and_bit k n (r / 2),
)
