-- ===== src/Memory/Words.antt =====
-- A word is its four bytes.
use libdrmtap.Prelude.{ℕ, ◌+◌, ◌*◌, ◌/◌, ◌%◌, ◌^◌, ◌<◌, ◌≡◌, ap, ap₂, ◌∙◌, arith}
use libdrmtap.Memory.{Buffer, byte_of, word_at}
use libdrmtap.Memory.Loops.{pixels_from}

pub word_of_bytes :
    (s : Buffer) (o v : ℕ)
    → v < 2 ^ 32
    → ((k : ℕ) → k < 4 → s.at (o + k) ≡ byte_of v k)
    → word_at s o ≡ v
word_of_bytes s o v small at = omega (
  arith,
  ap s.at start ∙ at 0 (omega arith),
  at 1 (omega arith),
  at 2 (omega arith),
  at 3 (omega arith),
)
  where
    start : o ≡ o + 0
    start = omega arith

-- The pixels of a painted image, word by word.
pub Painted-word :
    (w h ds : ℕ) (px : ℕ → ℕ → ℕ) (d out : Buffer)
    → ((y k : ℕ)
        → y < h
        → k < w * 4
        → out.at (y * ds + k) ≡ pixels_from (λ x. byte_of (px y x)) 0 k)
    → (y x : ℕ) → y < h
    → x < w
    → px y x < 2 ^ 32
    → word_at out (y * ds + x * 4) ≡ px y x
Painted-word w h ds px d out painted y x p q small =
    word_of_bytes out (y * ds + x * 4) (px y x) small λ k t.
      ap out.at (place k)
      ∙ painted y (x * 4 + k) p (omega arith)
      ∙ ap₂ (λ a b. byte_of (px y a) b) (quotient k t) (remainder k t)
  where
    place : (k : ℕ) → y * ds + x * 4 + k ≡ y * ds + (x * 4 + k)
    place k = omega arith

    quotient : (k : ℕ) → k < 4 → 0 + (x * 4 + k) / 4 ≡ x
    quotient k t = omega arith

    remainder : (k : ℕ) → k < 4 → (x * 4 + k) % 4 ≡ k
    remainder k t = omega arith
