-- ===== src/Pixel/Diff.antt =====
-- drmtap_diff_frames of src/pixel_convert.c: the tiles in which two frames differ.
pub mod Tile
pub mod Cover
pub mod Api
use libdrmtap.Prelude.{
  ℕ, zero, suc, ◌+◌, ◌-◌, ◌*◌, ◌/◌, Bool, ◌&&◌, ◌||◌, not, true, false, ltb, leb, ◌==◌,
  if◌then◌else◌, u32, Option, none, some, List, [], ◌∷◌, ◌++◌,
}
use libdrmtap.Errno.{Ret, ok, err, einval}
use libdrmtap.Memory.{Buffer, loop}

-- drmtap_rect
pub record Rect : Type 0 where
  pub x : ℕ
  pub y : ℕ
  pub w : ℕ
  pub h : ℕ

-- memcmp(a, b, n) != 0
unfoldable pub differs : (ℕ → ℕ) → (ℕ → ℕ) → ℕ → Bool
differs f g zero = false
differs f g (suc n) = not (f n == g n) || differs f g n

unfoldable pub memcmp_ne : Buffer → Buffer → ℕ → ℕ → Option Bool
memcmp_ne a b off n =
    if leb (off + n) a.len && leb (off + n) b.len
    then some (differs (λ k. a.at (off + k)) (λ k. b.at (off + k)) n)
    else none

abbrev pub or_next : Option Bool → Option Bool → Option Bool
or_next none rest = none
or_next (some true) rest = some true
or_next (some false) rest = rest

-- The rows of a tile, up to the first that differs.
unfoldable pub scan_rows : Buffer → Buffer → ℕ → ℕ → ℕ → ℕ → ℕ → Option Bool
scan_rows a b stride rx rw zero row = some false
scan_rows a b stride rx rw (suc n) row =
    or_next (memcmp_ne a b (u32 (row * stride + rx * 4)) (u32 (rw * 4)))
      (scan_rows a b stride rx rw n (row + 1))

-- dirty_count, and what has been stored in rects_out.
pub record Dirty : Type 0 where
  pub dirty_count : ℕ
  pub rects : List Rect

abbrev pub note : ℕ → Rect → Bool → Dirty → Dirty
note max_rects r false s = s
note max_rects r true s = record {
  dirty_count = s.dirty_count + 1;
  rects = if ltb s.dirty_count max_rects then s.rects ++ (r ∷ []) else s.rects;
}

abbrev pub noted : ℕ → Rect → Option Bool → Dirty → Option Dirty
noted max_rects r none s = none
noted max_rects r (some dirty) s = some (note max_rects r dirty s)

-- The size of a tile that begins at `r`, cut off at the frame's edge.
abbrev pub extent : ℕ → ℕ → ℕ → ℕ
extent size tile_size r = if ltb size (u32 (r + tile_size)) then size - r else tile_size

abbrev pub rect_at : ℕ → ℕ → ℕ → ℕ → ℕ → Rect
rect_at width height tile_size ty tx =
    let rx = u32 (tx * tile_size) in
    let ry = u32 (ty * tile_size) in
    record { x = rx; y = ry; w = extent width tile_size rx; h = extent height tile_size ry }

unfoldable pub diff_tile : Buffer → Buffer → ℕ → ℕ → ℕ → ℕ → ℕ → ℕ → ℕ → Dirty → Option Dirty
diff_tile a b width height stride max_rects tile_size ty tx s =
    let r = rect_at width height tile_size ty tx in
    noted max_rects r (scan_rows a b stride r.x r.w r.h r.y) s

abbrev pub tiles : ℕ → ℕ → ℕ
tiles size tile_size = u32 (size + tile_size - 1) / tile_size

unfoldable pub diff_tiles : Buffer → Buffer → ℕ → ℕ → ℕ → ℕ → ℕ → Option Dirty
diff_tiles a b width height stride max_rects tile_size =
    loop (tiles height tile_size) 0
      (λ ty.
        loop (tiles width tile_size) 0 (diff_tile a b width height stride max_rects tile_size ty))
      (record { dirty_count = 0; rects = [] })

-- `none` as a frame is a null pointer, and 0 stands for every size that is not positive.
unfoldable pub diff_frames : Option Buffer → Option Buffer → ℕ → ℕ → ℕ → ℕ → ℕ → Ret (Option Dirty)
diff_frames none b width height stride max_rects tile_size = err einval
diff_frames (some a) none width height stride max_rects tile_size = err einval
diff_frames (some a) (some b) width height stride max_rects tile_size =
    if (max_rects == 0) || (tile_size == 0)
    then err einval
    else ok (diff_tiles a b width height stride max_rects tile_size)
