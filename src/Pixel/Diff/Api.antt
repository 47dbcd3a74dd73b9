-- ===== src/Pixel/Diff/Api.antt =====
-- drmtap_diff_frames as its callers see it.
use libdrmtap.Prelude.{
  ℕ, ◌+◌, ◌*◌, ◌≤◌, ◌<◌, ◌≡◌, ap, ◌∙◌, arith, some, dec_lt, dec_le, List, [], ◌∷◌, length, ◌↔◌,
  ℕ_discrete,
}
use libdrmtap.Errno.{ok}
use libdrmtap.Memory.{Buffer}
use libdrmtap.Pixel.Diff.{Rect, Dirty, diff_frames}
use libdrmtap.Pixel.Diff.Tile.{Frames, Differ}
use libdrmtap.Pixel.Diff.Cover.{Any, Each, Holds, frame-Inv}

-- What a comparison reports: rectangles in the frame, each with a difference in it; as many as were
-- counted, up to the room for them; and, if there was room for all, every byte of a visible pixel in
-- which the frames differ lies in one of them.
pub record Reports (a b : Buffer) (width height stride max_rects : ℕ) (s : Dirty) : Type 0 where
  pub counted : s.dirty_count ≤ max_rects → length s.rects ≡ s.dirty_count
  pub full : max_rects ≤ s.dirty_count → length s.rects ≡ max_rects
  pub genuine :
      Each
        (λ r.
          (r.x + r.w ≤ width)
          × (r.y + r.h ≤ height)
          × (y : ℕ) × (k : ℕ) × Holds y k r
          × Differ a b stride y k)
        s.rects
  pub covered :
      (y k : ℕ)
      → y < height
      → k < width * 4
      → Differ a b stride y k
      → s.dirty_count ≤ max_rects
      → Any (Holds y k) s.rects

pub diff_frames-Reports :
    (a b : Buffer) (width height stride max_rects tile_size : ℕ)
    → Frames a b width height stride tile_size
    → 0 < max_rects
    → (s : Dirty) × (diff_frames (some a) (some b) width height stride max_rects tile_size
        ≡ ok (some s))
      × Reports a b width height stride max_rects s
unfolding diff_frames
diff_frames-Reports a b width height stride max_rects tile_size g room =
    let (s, e, v) = frame-Inv a b width height stride max_rects tile_size g in
    (
      s,
      ground (arith, e, room, g.positive),
      record {
        counted = v.counted;
        full = v.full;
        genuine = v.genuine;
        covered = λ y k p q d le. v.covered y k p q d tt le;
      },
    )

abbrev pub Equal : Buffer → Buffer → ℕ → ℕ → ℕ → Type 0
Equal a b width height stride =
    (y k : ℕ) → y < height → k < width * 4 → a.at (y * stride + k) ≡ b.at (y * stride + k)

module _ (a b : Buffer) (width height stride max_rects : ℕ) (s : Dirty)
    (v : Reports a b width height stride max_rects s) where
  nothing-Equal : 0 < max_rects → s.dirty_count ≡ 0 → Equal a b width height stride
  nothing-Equal room zero_count y k p q =
      elim (ℕ_discrete (a.at (y * stride + k)) (b.at (y * stride + k))) [
        | yes e ↦ e
        | no d ↦ absurd (
            no_rect s.rects (omega (arith, v.counted (omega arith)))
              (v.covered y k p q d (omega arith)))
      ]
    where
      no_rect : (rs : List Rect) → length rs ≡ 0 → ¬ Any (Holds y k) rs
      no_rect [] e n = n
      no_rect (r ∷ rs) e n = absurd (omega arith)

  Equal-nothing : 0 < max_rects → Equal a b width height stride → s.dirty_count ≡ 0
  Equal-nothing room same = elim (dec_lt 0 s.dirty_count) [
    | no none_counted ↦ omega arith
    | yes some_counted ↦ absurd (first_rect s.rects v.genuine (some_stored some_counted))
  ]
    where
      some_stored : 0 < s.dirty_count → 0 < length s.rects
      some_stored pos = elim (dec_le s.dirty_count max_rects) [
        | yes le ↦ omega (arith, v.counted le)
        | no gt ↦ omega (arith, v.full (omega arith))
      ]

      first_rect :
          (rs : List Rect)
          → Each
              (λ r.
                (r.x + r.w ≤ width)
                × (r.y + r.h ≤ height)
                × (y : ℕ) × (k : ℕ) × Holds y k r
                × Differ a b stride y k)
              rs
          → 0 < length rs
          → ⊥
      first_rect [] e pos = omega arith
      first_rect (r ∷ rs) ((right, bottom, y, k, (top, low, left, inside), d), e) pos =
          d (same y k (omega arith) (omega arith))

-- Where the arguments are valid, the comparison counts no tile exactly if the visible pixels of the
-- two frames are equal.
pub diff_frames_zero_iff :
    (a b : Buffer) (width height stride max_rects tile_size : ℕ)
    → Frames a b width height stride tile_size
    → 0 < max_rects
    → ((s : Dirty) × (diff_frames (some a) (some b) width height stride max_rects tile_size
          ≡ ok (some s))
        × (s.dirty_count ≡ 0))
      ↔ Equal a b width height stride
diff_frames_zero_iff a b width height stride max_rects tile_size g room =
    let (s, e, v) = diff_frames-Reports a b width height stride max_rects tile_size g room in
    (
      (λ (t, f, zero_count).
          let same : s ≡ t = cc (e, f) in
          nothing-Equal a b width height stride max_rects s v room
            (ap (λ (x : Dirty). x.dirty_count) same ∙ zero_count)),
      λ same. (s, e, Equal-nothing a b width height stride max_rects s v room same),
    )
