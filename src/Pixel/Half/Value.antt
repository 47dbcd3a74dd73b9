-- ===== src/Pixel/Half/Value.antt =====
-- The numbers that the two patterns stand for are the same.
use native.Mathlib.Nat.{pow-suc}
use libdrmtap.Prelude.{
  ℕ, zero, suc, ◌+◌, ◌-◌, ◌*◌, ◌/◌, ◌%◌, ◌^◌, ◌≤◌, ◌<◌, ◌≡◌, ◌≢◌, bit_and, bit_or, refl, sym, ap,
  ◌∙◌, ◌==◌, ltb, if◌then◌else◌, u32, Option, some, true, false, arith, holds_below, holds_at,
  dec_lt, or_shifted, and_mask, and_bit, pow-add, Bool-cases, inl, inr,
}
use libdrmtap.Pixel.Half.{normalise, float_bits, subnormal_bits, half_to_float}

-- The magnitude of a finite binary16 pattern, in units of 2 ^ -24.
abbrev pub half_value : ℕ → ℕ
half_value h = if h / 1024 % 32 == 0 then h % 1024 else (1024 + h % 1024) * 2 ^ (h / 1024 % 32 - 1)

-- The magnitude of a finite binary32 pattern, in units of 2 ^ -149.
abbrev pub float_value : ℕ → ℕ
float_value b =
    if b / 2 ^ 23 % 256 == 0 then b % 2 ^ 23 else (2 ^ 23 + b % 2 ^ 23) * 2 ^ (b / 2 ^ 23 % 256 - 1)

-- The test of the loop is a comparison.
bit_ten_table :
    holds_below 2048 (λ m. if bit_and m 0x400 == 0 then ltb m 1024 else ltb 1023 m) ≡ true
unfolding holds_below
bit_ten_table = refl

bit_ten : (m : ℕ) → m < 2048 → (if bit_and m 0x400 == 0 then ltb m 1024 else ltb 1023 m) ≡ true
bit_ten m h = holds_at 2048 _ m h bit_ten_table

record Normal (m e : ℕ) (r : Option (ℕ × ℕ)) : Type 0 where
  m' : ℕ
  e' : ℕ
  returns : r ≡ some (m', e')
  large : 1024 ≤ m'
  small : m' < 2048
  lower : e' ≤ e
  scaled : m' * 2 ^ e' ≡ m * 2 ^ e

below_ten : (m : ℕ) → m < 2048 → (bit_and m 0x400 == 0) ≡ true → m < 1024
below_ten m h z = ground (arith, bit_ten m h)

from_ten : (m : ℕ) → m < 2048 → (bit_and m 0x400 == 0) ≡ false → 1024 ≤ m
from_ten m h z = ground (arith, bit_ten m h)

pow_pred : (e : ℕ) → 0 < e → 2 ^ e ≡ 2 * 2 ^ (e - 1)
pow_pred zero h = absurd (omega arith)
pow_pred (suc e) h = pow-suc 2 e ∙ omega (arith, ap (λ t. 2 ^ t) same)
  where
    same : suc e - 1 ≡ e
    same = omega arith

step_back : (m e : ℕ) (r : Option (ℕ × ℕ)) → 0 < e → Normal (m * 2) (e - 1) r → Normal m e r
step_back m e r pos n = record {
  m' = n.m';
  e' = n.e';
  returns = n.returns;
  large = n.large;
  small = n.small;
  lower = omega (arith, n.lower);
  scaled = n.scaled ∙ omega (arith, ap (λ (t : ℕ). m * t) (pow_pred e pos));
}

normalise-Normal :
    (fuel m e : ℕ)
    → m < 2048
    → 1024 ≤ m * 2 ^ fuel
    → fuel < e
    → e < 2 ^ 32
    → Normal m e (normalise (suc fuel) m e)
unfolding normalise
normalise-Normal zero m e p q t u = elim (Bool-cases (bit_and m 0x400 == 0)) [
  | inl z ↦ absurd (omega (arith, below_ten m p z))
  | inr stop ↦ rw stop (record {
    m' = m;
    e' = e;
    returns = refl;
    large = from_ten m p stop;
    small = p;
    lower = omega arith;
    scaled = refl;
  })
]
normalise-Normal (suc fuel) m e p q t u = elim (Bool-cases (bit_and m 0x400 == 0)) [
  | inl z ↦
      let h = below_ten m p z in
      let twice : u32 (m * 2) ≡ m * 2 = omega arith in
      let less : u32 (e + 2 ^ 32 - 1) ≡ e - 1 = omega arith in
      rw (z, twice, less)
        (step_back m e _ (omega arith) (
          normalise-Normal fuel (m * 2) (e - 1) (omega arith)
            (omega (arith, ap (λ (t : ℕ). m * t) (pow-suc 2 fuel))) (omega arith) (omega arith)))
  | inr stop ↦ rw stop (record {
    m' = m;
    e' = e;
    returns = refl;
    large = from_ten m p stop;
    small = p;
    lower = omega arith;
    scaled = refl;
  })
]

-- The three fields of a binary32 pattern.
float_fields :
    (g e m : ℕ)
    → g < 2
    → e < 256
    → m < 1024
    → let b = float_bits (g * 2 ^ 31) e m in
      (b / 2 ^ 31 ≡ g) × (b / 2 ^ 23 % 256 ≡ e) × (b % 2 ^ 23 ≡ m * 8192)
unfolding float_bits
float_fields g e m p q t =
    let sum : float_bits (g * 2 ^ 31) e m ≡ g * 2 ^ 31 + e * 2 ^ 23 + m * 8192 =
      ap (λ t. bit_or t (u32 (m * 2 ^ 13))) (ap (bit_or (g * 2 ^ 31)) low_e ∙ upper)
      ∙ ap (bit_or ((g * 256 + e) * 2 ^ 23)) low_m
      ∙ or_shifted 23 (g * 256 + e) (m * 2 ^ 13) (omega arith)
      ∙ omega arith in
    omega (arith, sum)
  where
    low_e : u32 (e * 2 ^ 23) ≡ e * 2 ^ 23
    low_e = omega arith

    low_m : u32 (m * 2 ^ 13) ≡ m * 2 ^ 13
    low_m = omega arith

    upper : bit_or (g * 2 ^ 31) (e * 2 ^ 23) ≡ (g * 256 + e) * 2 ^ 23
    upper = or_shifted 31 g (e * 2 ^ 23) (omega arith) ∙ omega arith

-- What the conversion of a finite pattern promises: the same sign and the same magnitude.
pub record Same (h : ℕ) (r : Option ℕ) : Type 0 where
  pub bits : ℕ
  pub returns : r ≡ some bits
  pub sign : bits / 2 ^ 31 ≡ h / 2 ^ 15
  pub value : float_value bits ≡ half_value h * 2 ^ 125

-- The three fields of a binary16 pattern, as the code reads them.
half_fields :
    (h : ℕ)
    → h < 2 ^ 16
    → (u32 (bit_and h 0x8000 * 2 ^ 16) ≡ h / 2 ^ 15 * 2 ^ 31)
      × (bit_and (h / 2 ^ 10) 0x1f ≡ h / 1024 % 32)
      × (bit_and h 0x3ff ≡ h % 1024)
half_fields h p = (
  omega
      (arith, ap (λ t. bit_and t 0x8000) split, and_bit 15 (h / 2 ^ 15) (h % 2 ^ 15) (omega arith)),
  and_mask 5 (h / 2 ^ 10) ∙ omega arith,
  and_mask 10 h,
)
  where
    split : h ≡ h / 2 ^ 15 * 2 ^ 15 + h % 2 ^ 15
    split = omega arith

value_of_fields :
    (b e m : ℕ)
    → b / 2 ^ 23 % 256 ≡ e
    → b % 2 ^ 23 ≡ m * 8192
    → 0 < e
    → float_value b ≡ (1024 + m) * 8192 * 2 ^ (e - 1)
value_of_fields b e m fe fm pos = rw (fe, fm, positive) (omega arith)
  where
    positive : (e == 0) ≡ false
    positive = ground arith

normal-Same :
    (h : ℕ)
    → h < 2 ^ 16
    → h / 1024 % 32 ≢ 0
    → h / 1024 % 32 ≢ 31
    → Same h (
        some (
          float_bits
            (h / 2 ^ 15 * 2 ^ 31)
            (u32 (u32 (h / 1024 % 32 + 2 ^ 32 - 15) + 127))
            (h % 1024)))
normal-Same h p nz ni =
    let e = h / 1024 % 32 in
    let biased : u32 (u32 (e + 2 ^ 32 - 15) + 127) ≡ e + 112 = omega arith in
    let fields =
      float_fields (h / 2 ^ 15) (e + 112) (h % 1024) (omega arith) (omega arith) (omega arith) in
    rw biased (record {
      bits = float_bits (h / 2 ^ 15 * 2 ^ 31) (e + 112) (h % 1024);
      returns = refl;
      sign = fields.0;
      value =
          value_of_fields _ (e + 112) (h % 1024) fields.1 fields.2 (omega arith)
          ∙ magnitude
          ∙ ap (λ t. t * 2 ^ 125) (sym finite);
    })
  where
    finite : half_value h ≡ (1024 + h % 1024) * 2 ^ (h / 1024 % 32 - 1)
    finite = ground arith

    same_power : 2 ^ (h / 1024 % 32 + 112 - 1) ≡ 2 ^ (h / 1024 % 32 - 1) * 2 ^ 112
    same_power = ap (λ t. 2 ^ t) (omega arith) ∙ pow-add (h / 1024 % 32 - 1) 112

    magnitude :
        (1024 + h % 1024) * 8192 * 2 ^ (h / 1024 % 32 + 112 - 1)
        ≡ (1024 + h % 1024) * 2 ^ (h / 1024 % 32 - 1) * 2 ^ 125
    magnitude = omega (arith, ap (λ (t : ℕ). (1024 + h % 1024) * 8192 * t) same_power)

subnormal-Same :
    (h : ℕ)
    → h < 2 ^ 16
    → h / 1024 % 32 ≡ 0
    → h % 1024 ≢ 0
    → Same h (subnormal_bits (h / 2 ^ 15 * 2 ^ 31) (h % 1024))
unfolding subnormal_bits
subnormal-Same h p z nz =
    let n =
      normalise-Normal 10 (h % 1024) 113 (omega arith) (omega arith) (omega arith) (omega arith) in
    let tail : bit_and n.m' 0x3ff ≡ n.m' - 1024 =
      and_mask 10 n.m' ∙ omega (arith, n.large, n.small) in
    let fields =
      float_fields (h / 2 ^ 15) n.e' (n.m' - 1024) (omega arith) (omega (arith, n.lower))
        (omega (arith, n.small)) in
    let e_pos : 0 < n.e' = exponent_left n in
    rw (n.returns, subnormal_bits, tail)
      (record {
        bits = float_bits (h / 2 ^ 15 * 2 ^ 31) n.e' (n.m' - 1024);
        returns = refl;
        sign = fields.0;
        value =
            value_of_fields _ n.e' (n.m' - 1024) fields.1 fields.2 e_pos
            ∙ omega (
              arith,
              n.large,
              ap (λ (t : ℕ). (1024 + (n.m' - 1024)) * t) (pow_pred n.e' e_pos),
              n.scaled,
              ap (λ (t : ℕ). t * 2 ^ n.e') (restored n),
            )
            ∙ ap (λ t. t * 2 ^ 125) (sym finite);
      })
  where
    finite : half_value h ≡ h % 1024
    finite = ground arith

    exponent_left : (n : Normal (h % 1024) 113 (normalise 11 (h % 1024) 113)) → 0 < n.e'
    exponent_left n = elim (dec_lt 0 n.e') [
      | yes pos ↦ pos
      | no z0 ↦
          let e0 : n.e' ≡ 0 = omega arith in
          absurd (omega (arith, n.scaled, n.small, ap (λ (t : ℕ). n.m' * 2 ^ t) e0))
    ]

    restored :
        (n : Normal (h % 1024) 113 (normalise 11 (h % 1024) 113)) → 1024 + (n.m' - 1024) ≡ n.m'
    restored n = omega (arith, n.large)

zero-Same :
    (h : ℕ) → h < 2 ^ 16 → h / 1024 % 32 ≡ 0 → h % 1024 ≡ 0 → Same h (some (h / 2 ^ 15 * 2 ^ 31))
zero-Same h p e m = record {
  bits = h / 2 ^ 15 * 2 ^ 31;
  returns = refl;
  sign = omega arith;
  value = rw (zero_exp, zero_half) (omega arith);
}
  where
    zero_exp : (h / 2 ^ 15 * 2 ^ 31 / 2 ^ 23 % 256 == 0) ≡ true
    zero_exp = ground arith

    zero_half : (h / 1024 % 32 == 0) ≡ true
    zero_half = ground arith

-- Every finite half keeps its sign and its magnitude exactly: the conversion returns, and the
-- float's value in units of 2 ^ -149 is the half's in units of 2 ^ -24 times 2 ^ 125.
pub half_to_float-Same : (h : ℕ) → h < 2 ^ 16 → h / 1024 % 32 ≢ 31 → Same h (half_to_float h)
unfolding half_to_float
half_to_float-Same h p ni =
    let f = half_fields h p in
    rw (f.0, f.1, f.2)
      (elim (Bool-cases (h / 1024 % 32 == 0)) [
        | inl z ↦ rw z (elim (Bool-cases (h % 1024 == 0)) [
          | inl zero_mant ↦ rw zero_mant (zero-Same h p (ground arith) (ground arith))
          | inr sub ↦ rw sub (subnormal-Same h p (ground arith) (ground arith))
        ])
        | inr nz ↦ rw (nz, finite) (normal-Same h p (ground arith) ni)
      ])
  where
    finite : (h / 1024 % 32 == 31) ≡ false
    finite = ground arith
