-- ===== src/Memory.antt =====
-- The memory that the pixel code reads and writes: a buffer is its length and its bytes. An
-- access that leaves the buffer is a fault, `none`, where C has undefined behaviour.
pub mod Loops
pub mod Words
pub mod Repack
use libdrmtap.Prelude.{
  ℕ, zero, suc, ◌+◌, ◌-◌, ◌*◌, ◌/◌, ◌%◌, ◌^◌, ◌&&◌, ltb, leb, if◌then◌else◌, Option, none, some,
}

pub record Buffer : Type 0 where
  pub len : ℕ
  pub at : ℕ → ℕ

-- `n` bytes at `off` become `f 0`, `f 1`, …
unfoldable pub write : Buffer → ℕ → ℕ → (ℕ → ℕ) → Option Buffer
write d off n f =
    if leb (off + n) d.len
    then some (record d { at = λ i. if leb off i && ltb i (off + n) then f (i - off) else d.at i })
    else none

-- memcpy(d + off, s + from, n) between two buffers that do not overlap.
unfoldable pub memcpy : Buffer → ℕ → Buffer → ℕ → ℕ → Option Buffer
memcpy d off s from n = if leb (from + n) s.len then write d off n (λ k. s.at (from + k)) else none

-- memset(d + off, v, n)
unfoldable pub memset : Buffer → ℕ → ℕ → ℕ → Option Buffer
memset d off v n = write d off n (λ k. v)

-- Byte `k` of a word, least significant first.
abbrev pub byte_of : ℕ → ℕ → ℕ
byte_of v k = v / 256 ^ k % 256

-- A uint32_t load and store, and a uint16_t load, on a little-endian machine.
abbrev pub word_at : Buffer → ℕ → ℕ
word_at s off = s.at off + 256 * s.at (off + 1) + 65536 * s.at (off + 2) + 16777216 * s.at (off + 3)

unfoldable pub load32 : Buffer → ℕ → Option ℕ
load32 s off = if leb (off + 4) s.len then some (word_at s off) else none

abbrev pub half_at : Buffer → ℕ → ℕ
half_at s off = s.at off + 256 * s.at (off + 1)

unfoldable pub load16 : Buffer → ℕ → Option ℕ
load16 s off = if leb (off + 2) s.len then some (half_at s off) else none

unfoldable pub store32 : Buffer → ℕ → ℕ → Option Buffer
store32 d off v = write d off 4 (byte_of v)

-- A chain of accesses: the first fault ends it.
infixl 5 ◌>>=◌
abbrev pub ◌>>=◌ {ℓ κ} : {A : Type ℓ} {B : Type κ} → Option A → (A → Option B) → Option B
none >>= f = none
some a >>= f = f a

-- for (i = lo; i < lo + n; i++) s = body i s
pub loop {ℓ} : {S : Type ℓ} → ℕ → ℕ → (ℕ → S → Option S) → S → Option S
loop zero i body s = some s
loop (suc n) i body s = elim (body i s) [ none ↦ none | some s' ↦ loop n (i + 1) body s' ]

-- for (y = 0; y < h; y++) for (x = 0; x < w; x++) d = body y x d
unfoldable pub for_pixels : ℕ → ℕ → (ℕ → ℕ → Buffer → Option Buffer) → Buffer → Option Buffer
unfolding loop
for_pixels w h body d = loop h 0 (λ y d'. loop w 0 (body y) d') d
