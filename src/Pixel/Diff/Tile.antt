-- ===== src/Pixel/Diff/Tile.antt =====
-- One tile: the scan of its rows finds a difference exactly if there is one.
use libdrmtap.Prelude.{
  ℕ, zero, suc, ◌+◌, ◌-◌, ◌*◌, ◌/◌, ◌^◌, ◌≤◌, ◌<◌, ◌≡◌, ◌≢◌, ◌⊎◌, inl, inr, refl, ap, sym, ◌∙◌,
  subst, arith, Bool, true, false, ◌==◌, le→leb, Option, some, Bool-cases, row-le, u32, mul_mono,
  dec_lt,
}
use libdrmtap.Memory.{Buffer}
use libdrmtap.Pixel.Diff.{differs, memcmp_ne, scan_rows, or_next, extent, tiles}

-- Two frames that lie in their buffers, and a tile size, such that no 32-bit sum overflows.
pub record Frames (a b : Buffer) (width height stride tile_size : ℕ) : Type 0 where
  pub in_row : width * 4 ≤ stride
  pub in_a : height * stride ≤ a.len
  pub in_b : height * stride ≤ b.len
  pub below_4g : height * stride < 2 ^ 32
  pub narrow : width < 2 ^ 30
  pub low : height < 2 ^ 31
  pub positive : 0 < tile_size
  pub small : tile_size < 2 ^ 31

-- What a scan of `n` bytes finds.
abbrev pub Verdict : (ℕ → Type 0) → ℕ → Bool → Type 0
Verdict Differ n v =
    ((v ≡ true) × (k : ℕ) × (k < n) × Differ k) ⊎ ((v ≡ false) × ((k : ℕ) → k < n → ¬ Differ k))

differs-Verdict : (f g : ℕ → ℕ) (n : ℕ) → Verdict (λ k. f k ≢ g k) n (differs f g n)
unfolding differs
differs-Verdict f g zero = inr (refl, λ k p. absurd (omega arith))
differs-Verdict f g (suc n) = elim (Bool-cases (f n == g n)) [
  | inr ne ↦ inl (rw ne refl, n, omega arith, λ e. absurd (ground (arith, ne, e)))
  | inl eq ↦ elim (differs-Verdict f g n) [
    | inl (t, k, below, d) ↦ inl (rw (eq, t) refl, k, omega arith, d)
    | inr (z, same) ↦ inr (
      rw (eq, z) refl,
      λ k below d. elim (dec_lt k n) [
        | yes before ↦ same k before d
        | no last ↦
            let here : k ≡ n = omega arith in d (ap f here ∙ ground (arith, eq) ∙ sym (ap g here))
      ],
    )
  ]
]

-- A byte that differs, at byte `k` of row `y`.
abbrev pub Differ : Buffer → Buffer → ℕ → ℕ → ℕ → Type 0
Differ a b stride y k = a.at (y * stride + k) ≢ b.at (y * stride + k)

module _ (a b : Buffer) (width height stride tile_size : ℕ)
    (g : Frames a b width height stride tile_size) where
  -- A difference in `n` rows from `row`, in the bytes of the columns `rx` to `rx + rw`.
  abbrev pub InRows : ℕ → ℕ → ℕ → ℕ → Type 0
  InRows rx tw n row =
      (y : ℕ) × (k : ℕ) × (row ≤ y)
      × (y < row + n)
      × (rx * 4 ≤ k)
      × (k < rx * 4 + tw * 4)
      × Differ a b stride y k

  abbrev pub Found : ℕ → ℕ → ℕ → ℕ → Option Bool → Type 0
  Found rx tw n row r =
      ((r ≡ some true) × InRows rx tw n row) ⊎ ((r ≡ some false) × ¬ InRows rx tw n row)

  memcmp-some :
      (rx tw row : ℕ)
      → rx + tw ≤ width
      → row < height
      → memcmp_ne a b (u32 (row * stride + rx * 4)) (u32 (tw * 4))
        ≡ some (
            differs
              (λ k. a.at (row * stride + rx * 4 + k))
              (λ k. b.at (row * stride + rx * 4 + k))
              (tw * 4))
  unfolding memcmp_ne
  memcmp-some rx tw row p q =
      let open_row : row * stride + stride ≤ height * stride = row-le row height stride q in
      let off : u32 (row * stride + rx * 4) ≡ row * stride + rx * 4 =
        omega (arith, g.in_row, g.below_4g) in
      let len : u32 (tw * 4) ≡ tw * 4 = omega (arith, g.narrow) in
      rw
        (
          off,
          len,
          le→leb (row * stride + rx * 4 + tw * 4) a.len (omega (arith, g.in_row, g.in_a)),
          le→leb (row * stride + rx * 4 + tw * 4) b.len (omega (arith, g.in_row, g.in_b)),
        )
        refl

  pub scan-Found :
      (rx tw n row : ℕ)
      → rx + tw ≤ width
      → row + n ≤ height
      → Found rx tw n row (scan_rows a b stride rx tw n row)
  unfolding scan_rows
  scan-Found rx tw zero row p q = inr (refl, λ (y, k, lo, hi, left, right, d). absurd (omega arith))
  scan-Found rx tw (suc n) row p q =
      let f : ℕ → ℕ = λ k. a.at (row * stride + rx * 4 + k) in
      let h : ℕ → ℕ = λ k. b.at (row * stride + rx * 4 + k) in
      elim (differs-Verdict f h (tw * 4)) [
        | inl (t, k, below, d) ↦ inl (
          ap (λ o. or_next o (scan_rows a b stride rx tw n (row + 1)))
              (memcmp-some rx tw row p (omega arith) ∙ ap some t),
          (
            row,
            rx * 4 + k,
            omega arith,
            omega arith,
            omega arith,
            omega arith,
            λ e. d (ap a.at (later_byte k) ∙ e ∙ ap b.at (sym (later_byte k))),
          ),
        )
        | inr (z, same) ↦
            subst (Found rx tw (suc n) row)
              (sym (
                ap (λ o. or_next o (scan_rows a b stride rx tw n (row + 1)))
                  (memcmp-some rx tw row p (omega arith) ∙ ap some z)))
              (later (scan-Found rx tw n (row + 1) p (omega arith)) same)
      ]
    where
      later_byte : (k : ℕ) → row * stride + rx * 4 + k ≡ row * stride + (rx * 4 + k)
      later_byte k = omega arith

      this_byte : (k : ℕ) → rx * 4 ≤ k → row * stride + rx * 4 + (k - rx * 4) ≡ row * stride + k
      this_byte k lo = omega arith

      this_row :
          ((k : ℕ)
            → k < tw * 4
            → ¬ (a.at (row * stride + rx * 4 + k) ≢ b.at (row * stride + rx * 4 + k)))
          → (k : ℕ) → rx * 4 ≤ k
          → k < rx * 4 + tw * 4
          → ¬ Differ a b stride row k
      this_row same k lo hi d =
          same (k - rx * 4) (omega arith)
            (λ e. d (ap a.at (sym (this_byte k lo)) ∙ e ∙ ap b.at (this_byte k lo)))

      later :
          Found rx tw n (row + 1) (scan_rows a b stride rx tw n (row + 1))
          → ((k : ℕ)
              → k < tw * 4
              → ¬ (a.at (row * stride + rx * 4 + k) ≢ b.at (row * stride + rx * 4 + k)))
          → Found rx tw (suc n) row (scan_rows a b stride rx tw n (row + 1))
      later (inl (e, (y, k, lo, hi, left, right, d))) same =
          inl (e, (y, k, omega arith, omega arith, left, right, d))
      later (inr (e, nothing)) same = inr (
        e,
        λ (y, k, lo, hi, left, right, d). elim (dec_lt row y) [
          | yes after ↦ nothing (y, k, omega arith, omega arith, left, right, d)
          | no here ↦
              let at_row : y ≡ row = omega arith in
              this_row same k left right (subst (λ t. Differ a b stride t k) at_row d)
        ],
      )

-- The tiles of one side: where each begins and ends, and in which one a point lies.
module _ (size tile_size : ℕ) (positive : 0 < tile_size) (narrow : size < 2 ^ 31)
    (small : tile_size < 2 ^ 31) where
  quotient :
      (q : ℕ)
      → q ≡ (size + tile_size - 1) / tile_size
      → (q * tile_size < size + tile_size) × (size ≤ q * tile_size)
  quotient q e = (grind arith, grind arith)

  tiles-exact : tiles size tile_size ≡ (size + tile_size - 1) / tile_size
  tiles-exact = ap (λ (n : ℕ). n / tile_size) (omega arith)

  pub tile_start :
      (t : ℕ)
      → t < tiles size tile_size
      → (t * tile_size < size) × (u32 (t * tile_size) ≡ t * tile_size)
  tile_start t below =
      let q = quotient (tiles size tile_size) tiles-exact in
      let room : t * tile_size + tile_size ≤ tiles size tile_size * tile_size =
        row-le t (tiles size tile_size) tile_size below in
      (omega (arith, q), omega (arith, q))

  pub extent-bounds :
      (r : ℕ)
      → r < size
      → (r + extent size tile_size r ≤ size)
        × (0 < extent size tile_size r)
        × ((p : ℕ) → p < size → p < r + tile_size → p < r + extent size tile_size r)
  extent-bounds r below = (ground arith, ground arith, λ p q u. ground arith)

  pub tile_of : (p : ℕ) → p < size → p / tile_size < tiles size tile_size
  tile_of p below =
      let q = quotient (tiles size tile_size) tiles-exact in
      elim (dec_lt (p / tile_size) (tiles size tile_size)) [
        | yes h ↦ h
        | no h ↦ absurd (
            omega (
              arith,
              q,
              start,
              mul_mono (tiles size tile_size) (p / tile_size) tile_size (omega arith),
            ))
      ]
    where
      start : p / tile_size * tile_size ≤ p
      start = grind arith

  pub point_in :
      (p : ℕ) → (p / tile_size * tile_size ≤ p) × (p < p / tile_size * tile_size + tile_size)
  point_in p = (grind arith, grind arith)
