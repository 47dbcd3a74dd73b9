-- ===== src/Memory/Repack.antt =====
-- The row loops of drmtap_convert_dmabuf (src/drm_grab.c) and drmtap_get_cursor (src/cursor.c): rows
-- of 4-byte pixels at a stride, repacked without padding.
use libdrmtap.Prelude.{
  ℕ, ◌+◌, ◌*◌, ◌≤◌, ◌<◌, ◌≡◌, refl, sym, ap, subst, Option, none, some, arith, row-le, leb, ltb,
  ◌&&◌, true,
}
use native.Mathlib.Nat.{mul_comm}
use libdrmtap.Memory.{Buffer, write, memcpy, loop}
use libdrmtap.Memory.Loops.{written, write_in_range, loop-Painted}

unfoldable pub repack : Buffer → Buffer → ℕ → ℕ → ℕ → Option Buffer
repack s d width height stride =
    loop height 0 (λ y d'. memcpy d' (y * (width * 4)) s (y * stride) (width * 4)) d

-- A normal return: row `y` of the result is row `y` of the source, as far as the width goes.
pub record Repacked (s d : Buffer) (width height stride : ℕ) (result : Option Buffer) : Type 0 where
  pub out : Buffer
  pub returns : result ≡ some out
  pub same_len : out.len ≡ d.len
  pub rows :
      (y k : ℕ) → y < height → k < width * 4 → out.at (y * (width * 4) + k) ≡ s.at (y * stride + k)

module _ (s d : Buffer) (width height stride : ℕ) (narrow : width * 4 ≤ stride)
    (fits : height * (width * 4) ≤ d.len) (held : height * stride ≤ s.len) where
  pub repack-Repacked : Repacked s d width height stride (repack s d width height stride)
  unfolding repack memcpy
  repack-Repacked =
      let p =
        loop-Painted (width * 4) (width * 4) (λ y k. s.at (y * stride + k)) (omega arith) height
          d.len (λ y d'. memcpy d' (y * (width * 4)) s (y * stride) (width * 4))
          (λ y d' below l. row y d' below) height 0 d (omega arith) fits refl in
      record {
        out = p.out;
        returns = p.returns;
        same_len = p.same_len;
        rows = λ y k below q. p.inside y k (omega arith) below q;
      }
    where
      row :
          (y : ℕ) (d' : Buffer)
          → y < height
          → memcpy d' (y * (width * 4)) s (y * stride) (width * 4)
            ≡ write d' (y * (width * 4)) (width * 4) (λ k. s.at (y * stride + k))
      row y d' below =
          let held_row : leb (y * stride + width * 4) s.len ≡ true =
            ground (arith, row-le y height stride below) in
          rw held_row refl

  -- Without padding one copy does.
  pub memcpy-Repacked :
      stride ≡ width * 4 → Repacked s d width height stride (memcpy d 0 s 0 (width * 4 * height))
  unfolding memcpy
  memcpy-Repacked tight =
      let n = width * 4 * height in
      let held_all : leb (0 + n) s.len ≡ true = grind (arith, tight) in
      record {
        out = written d 0 n (λ k. s.at (0 + k));
        returns = rw held_all (write_in_range d 0 n (λ k. s.at (0 + k)) (grind arith));
        same_len = refl;
        rows = λ y k below q.
            let i = y * (width * 4) + k in
            let inside : (leb 0 i && ltb i (0 + n)) ≡ true =
              ground (arith, row-le y height (width * 4) below, mul_comm (width * 4) height) in
            rw inside (ap s.at (rw tight (omega arith)));
      }

-- What became of an output buffer into which pixels may be copied.
pub data Copy : Type 0 where
  no_copy fault : Copy
  filled : Buffer → Copy

abbrev pub copied : Option Buffer → Copy
copied none = fault
copied (some b) = filled b

-- What is copied is the picture, row by row without padding, and no copy leaves a buffer.
abbrev pub CopiesAs : Buffer → ℕ → ℕ → ℕ → Copy → Type 0
CopiesAs s width height stride no_copy = Unit
CopiesAs s width height stride fault = ⊥
CopiesAs s width height stride (filled b) =
    (y k : ℕ) → y < height → k < width * 4 → b.at (y * (width * 4) + k) ≡ s.at (y * stride + k)

pub Repacked-CopiesAs :
    (s d : Buffer) (width height stride : ℕ) (r : Option Buffer)
    → Repacked s d width height stride r
    → CopiesAs s width height stride (copied r)
Repacked-CopiesAs s d width height stride r p =
    subst (λ x. CopiesAs s width height stride (copied x)) (sym p.returns) p.rows
