-- ===== src/Pixel/Diff/Cover.antt =====
-- The rectangles reported: each holds a difference, and together they cover every difference.
use libdrmtap.Prelude.{
  ℕ, ◌+◌, ◌*◌, ◌/◌, ◌^◌, ◌≤◌, ◌<◌, ◌≡◌, ◌⊎◌, inl, inr, refl, ap, arith, true, ltb, some, Bool-cases,
  u32, dec_lt, List, [], ◌∷◌, ◌++◌, length, length-append,
}
use libdrmtap.Memory.{Buffer, loop}
use libdrmtap.Memory.Loops.{loop-keeps}
use libdrmtap.Pixel.Diff.{Rect, Dirty, note, noted, extent, rect_at, tiles, diff_tile, diff_tiles}
use libdrmtap.Pixel.Diff.Tile.{
  Frames, Differ, scan-Found, tile_start, extent-bounds, tile_of, point_in,
}

-- One of the rectangles, or each of them.
abbrev pub Any : (Rect → Type 0) → List Rect → Type 0
Any P [] = ⊥
Any P (r ∷ rs) = P r ⊎ Any P rs

abbrev pub Each : (Rect → Type 0) → List Rect → Type 0
Each P [] = Unit
Each P (r ∷ rs) = P r × Each P rs

Any-last : (P : Rect → Type 0) (rs : List Rect) (r : Rect) → P r → Any P (rs ++ (r ∷ []))
Any-last P [] r p = inl p
Any-last P (x ∷ rs) r p = inr (Any-last P rs r p)

Any-more : (P : Rect → Type 0) (rs : List Rect) (r : Rect) → Any P rs → Any P (rs ++ (r ∷ []))
Any-more P [] r p = absurd p
Any-more P (x ∷ rs) r (inl p) = inl p
Any-more P (x ∷ rs) r (inr p) = inr (Any-more P rs r p)

Each-more :
    (P : Rect → Type 0) (rs : List Rect) (r : Rect) → Each P rs → P r → Each P (rs ++ (r ∷ []))
Each-more P [] r e p = (p, tt)
Each-more P (x ∷ rs) r e p = (e.0, Each-more P rs r e.1 p)

-- Byte `k` of row `y` lies in the rectangle.
abbrev pub Holds : ℕ → ℕ → Rect → Type 0
Holds y k r = (r.y ≤ y) × (y < r.y + r.h) × (r.x * 4 ≤ k) × (k < r.x * 4 + r.w * 4)

module _ (a b : Buffer) (width height stride max_rects tile_size : ℕ)
    (g : Frames a b width height stride tile_size) where
  -- A rectangle lies in the frame and holds a difference.
  abbrev pub Genuine : Rect → Type 0
  Genuine r =
      (r.x + r.w ≤ width)
      × (r.y + r.h ≤ height)
      × (y : ℕ) × (k : ℕ) × Holds y k r
      × Differ a b stride y k

  -- The state after the tiles that `Seen` holds of, by tile row and tile column.
  pub record Inv (Seen : ℕ → ℕ → Type 0) (s : Dirty) : Type 0 where
    pub counted : s.dirty_count ≤ max_rects → length s.rects ≡ s.dirty_count
    pub full : max_rects ≤ s.dirty_count → length s.rects ≡ max_rects
    pub genuine : Each Genuine s.rects
    pub covered :
        (y k : ℕ)
        → y < height
        → k < width * 4
        → Differ a b stride y k
        → Seen (y / tile_size) (k / 4 / tile_size)
        → s.dirty_count ≤ max_rects
        → Any (Holds y k) s.rects

  -- Noting a rectangle that holds a difference.
  note-Inv :
      (Seen Seen' : ℕ → ℕ → Type 0) (r : Rect) (s : Dirty)
      → Inv Seen s
      → Genuine r
      → ((y k : ℕ)
          → y < height
          → k < width * 4
          → Seen' (y / tile_size) (k / 4 / tile_size)
          → Seen (y / tile_size) (k / 4 / tile_size) ⊎ Holds y k r)
      → Inv Seen' (note max_rects r true s)
  note-Inv Seen Seen' r s v good next = elim (Bool-cases (ltb s.dirty_count max_rects)) [
    | inl room ↦ rw room (record {
      counted = λ le. omega (arith, v.counted (omega arith), length-append s.rects (r ∷ []));
      full = λ le.
          omega
            (arith, v.counted (ground (arith, room)), length-append s.rects (r ∷ []), ltb_lt room);
      genuine = Each-more Genuine s.rects r v.genuine good;
      covered = λ y k p q d seen le. elim (next y k p q seen) [
        | inl before ↦ Any-more (Holds y k) s.rects r (v.covered y k p q d before (omega arith))
        | inr here ↦ Any-last (Holds y k) s.rects r here
      ];
    })
    | inr none_left ↦ rw none_left (record {
      counted = λ le. absurd (ground (arith, none_left, le));
      full = λ le. v.full (ground (arith, none_left));
      genuine = v.genuine;
      covered = λ y k p q d seen le. absurd (ground (arith, none_left, le));
    })
  ]
    where
      ltb_lt : ltb s.dirty_count max_rects ≡ true → s.dirty_count < max_rects
      ltb_lt e = ground arith

  -- Tiles before tile `tx` of tile row `ty`.
  abbrev Before : ℕ → ℕ → ℕ → ℕ → Type 0
  Before ty tx i j = (i < ty) ⊎ ((i ≡ ty) × (j < tx))

  seen_or_here : (ty tx i j : ℕ) → Before ty (tx + 1) i j → Before ty tx i j ⊎ ((i ≡ ty) × (j ≡ tx))
  seen_or_here ty tx i j (inl above) = inl (inl above)
  seen_or_here ty tx i j (inr (same, left)) = elim (dec_lt j tx) [
    | yes earlier ↦ inl (inr (same, earlier))
    | no here ↦ inr (same, omega arith)
  ]

  -- The point of a tile that the frame has lies in the tile's rectangle.
  in_tile :
      (size p t r : ℕ)
      → p < size
      → r ≡ t * tile_size
      → r < size
      → size < 2 ^ 31
      → p / tile_size ≡ t
      → (r ≤ p) × (p < r + extent size tile_size r)
  in_tile size p t r below e inside narrow q =
      let at_tile : p / tile_size * tile_size ≡ t * tile_size = ap (λ (x : ℕ). x * tile_size) q in
      let here = point_in size tile_size g.positive narrow g.small p in
      (
        omega (arith, here, e, at_tile),
        (extent-bounds size tile_size g.positive narrow g.small r inside).2 p below
            (omega (arith, here, e, at_tile)),
      )

  tile-Holds :
      (ty tx y k : ℕ)
      → ty < tiles height tile_size
      → tx < tiles width tile_size
      → y < height
      → k < width * 4
      → y / tile_size ≡ ty
      → k / 4 / tile_size ≡ tx
      → Holds y k (rect_at width height tile_size ty tx)
  tile-Holds ty tx y k p q below inside row col =
      let left = tile_start width tile_size g.positive (omega (arith, g.narrow)) g.small tx q in
      let top = tile_start height tile_size g.positive g.low g.small ty p in
      let across =
        in_tile width (k / 4) tx (u32 (tx * tile_size)) (omega arith) left.1 (omega (arith, left))
          (omega (arith, g.narrow)) col in
      let down =
        in_tile height y ty (u32 (ty * tile_size)) below top.1 (omega (arith, top)) g.low row in
      (down.0, down.1, omega (arith, across), omega (arith, across))

  tile-Inv :
      (ty tx : ℕ) (s : Dirty)
      → ty < tiles height tile_size
      → tx < tiles width tile_size
      → Inv (Before ty tx) s
      → (s' : Dirty) × (diff_tile a b width height stride max_rects tile_size ty tx s ≡ some s')
        × Inv (Before ty (tx + 1)) s'
  unfolding diff_tile
  tile-Inv ty tx s p q v =
      let r = rect_at width height tile_size ty tx in
      let left = tile_start width tile_size g.positive (omega (arith, g.narrow)) g.small tx q in
      let top = tile_start height tile_size g.positive g.low g.small ty p in
      let across =
        extent-bounds width tile_size g.positive (omega (arith, g.narrow)) g.small r.x
          (omega (arith, left)) in
      let down = extent-bounds height tile_size g.positive g.low g.small r.y (omega (arith, top)) in
      elim (scan-Found a b width height stride tile_size g r.x r.w r.h r.y across.0 down.0) [
        | inl (e, (y, k, lo, hi, l, h, d)) ↦ (
          note max_rects r true s,
          ap (λ o. noted max_rects r o s) e,
          note-Inv (Before ty tx) (Before ty (tx + 1)) r s v
              (across.0, down.0, y, k, (lo, hi, l, h), d)
              (λ y' k' below inside seen.
                elim (seen_or_here ty tx (y' / tile_size) (k' / 4 / tile_size) seen) [
                  | inl earlier ↦ inl earlier
                  | inr (row, col) ↦ inr (tile-Holds ty tx y' k' p q below inside row col)
                ]),
        )
        | inr (e, nothing) ↦ (
          s,
          ap (λ o. noted max_rects r o s) e,
          record {
            counted = v.counted;
            full = v.full;
            genuine = v.genuine;
            covered = λ y k below inside d seen le.
                elim (seen_or_here ty tx (y / tile_size) (k / 4 / tile_size) seen) [
                  | inl earlier ↦ v.covered y k below inside d earlier le
                  | inr (row, col) ↦
                      let (lo, hi, l, h) = tile-Holds ty tx y k p q below inside row col in
                      absurd (nothing (y, k, lo, hi, l, h, d))
                ];
          },
        )
      ]

  -- Other tiles seen.
  Inv-more :
      (Seen Seen' : ℕ → ℕ → Type 0) (s : Dirty)
      → ((y k : ℕ)
          → y < height
          → k < width * 4
          → Seen' (y / tile_size) (k / 4 / tile_size)
          → Seen (y / tile_size) (k / 4 / tile_size))
      → Inv Seen s
      → Inv Seen' s
  Inv-more Seen Seen' s less v = record {
    counted = v.counted;
    full = v.full;
    genuine = v.genuine;
    covered = λ y k p q d seen le. v.covered y k p q d (less y k p q seen) le;
  }

  row-Inv :
      (ty : ℕ) (s : Dirty)
      → ty < tiles height tile_size
      → Inv (Before ty 0) s
      → (s' : Dirty) × (loop
            (tiles width tile_size)
            0
            (diff_tile a b width height stride max_rects tile_size ty)
            s
          ≡ some s')
        × Inv (Before (ty + 1) 0) s'
  row-Inv ty s p v =
      let (s', e, u) =
        loop-keeps (λ tx. Inv (Before ty tx)) (tiles width tile_size) 0
          (diff_tile a b width height stride max_rects tile_size ty) s
          (λ tx t lo hi w. tile-Inv ty tx t p (omega arith) w) v in
      (
        s',
        e,
        Inv-more (Before ty (0 + tiles width tile_size)) (Before (ty + 1) 0) s'
            (λ y k below inside seen. whole_row y k inside seen) u,
      )
    where
      whole_row :
          (y k : ℕ)
          → k < width * 4
          → Before (ty + 1) 0 (y / tile_size) (k / 4 / tile_size)
          → Before ty (0 + tiles width tile_size) (y / tile_size) (k / 4 / tile_size)
      whole_row y k inside seen =
          let col =
            tile_of width tile_size g.positive (omega (arith, g.narrow)) g.small (k / 4)
              (omega arith) in
          elim (dec_lt (y / tile_size) ty) [
            | yes above ↦ inl above
            | no here ↦ inr (only_here seen here, omega (arith, col))
          ]
        where
          only_here :
              Before (ty + 1) 0 (y / tile_size) (k / 4 / tile_size)
              → ¬ (y / tile_size < ty)
              → y / tile_size ≡ ty
          only_here (inl below) not_above = omega arith
          only_here (inr (e, none_left)) not_above = absurd (omega arith)

  pub frame-Inv :
      (s' : Dirty) × (diff_tiles a b width height stride max_rects tile_size ≡ some s')
      × Inv (λ i j. Unit) s'
  unfolding diff_tiles
  frame-Inv =
      let (s', e, u) =
        loop-keeps (λ ty. Inv (Before ty 0)) (tiles height tile_size) 0 _
          (record { dirty_count = 0; rects = [] }) (λ ty t lo hi w. row-Inv ty t (omega arith) w)
          start in
      (
        s',
        e,
        Inv-more (Before (0 + tiles height tile_size) 0) (λ i j. Unit) s'
            (λ y k below inside seen.
              inl (omega (arith, tile_of height tile_size g.positive g.low g.small y below)))
            u,
      )
    where
      start : Inv (Before 0 0) (record { dirty_count = 0; rects = [] })
      start = record {
        counted = λ le. refl;
        full = λ le. omega arith;
        genuine = tt;
        covered = λ y k p q d seen le. absurd (never seen);
      }
        where
          never : {i j : ℕ} → Before 0 0 i j → ⊥
          never (inl h) = omega arith
          never (inr (e, h)) = omega arith
