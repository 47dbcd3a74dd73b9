-- ===== src/Grab/Output/Owned.antt =====
-- Who owns the destination, that it is large enough, and that no block is lost.
use libdrmtap.Prelude.{
  ℕ, ◌+◌, ◌≤◌, ◌<◌, ◌≡◌, ◌≢◌, Bool, ltb, leb, ◌==◌, if◌then◌else◌, u32, Option, none, some, true,
  false, arith, refl, ◌⊎◌, inl, inr, Bool-cases, subst,
}
use libdrmtap.Errno.{Errno, Ret, ok, err, einval, efbig, enospc}
use libdrmtap.Grab.Geometry.{max_fb_bytes}
use libdrmtap.Grab.Output.{
  Heap, free, Grow, Out, Dest, user, owned, holds, ensure_buf, ensure_out, regrow, owned_out,
  choose_out, set_output_buffer,
}

-- The buffer is a live block of exactly `cap` bytes, within the cap; with no buffer `cap` is 0.
abbrev pub Block : Heap → Option ℕ → ℕ → Type 0
Block h none cap = cap ≡ 0
Block h (some p) cap = (p < h.next) × (h.size_of p ≡ cap) × (0 < cap) × (cap ≤ max_fb_bytes)

pub record IsGrow (g : Grow) : Type 0 where
  pub block : Block g.heap g.buf g.cap
  pub unborn : (p : ℕ) → g.heap.next ≤ p → g.heap.size_of p ≡ 0

-- Blocks other than the old and the new buffer are untouched.
abbrev pub Others : Grow → Grow → Type 0
Others g g' = (p : ℕ) → p < g.heap.next → g.buf ≢ some p → g'.heap.size_of p ≡ g.heap.size_of p

-- The old buffer, if replaced, was freed: no block is lost.
abbrev pub NoLeak : Grow → Grow → Type 0
NoLeak g g' = (p : ℕ) → g.buf ≡ some p → (g'.buf ≡ some p) ⊎ (g'.heap.size_of p ≡ 0)

abbrev pub Outcome : Grow → ℕ → Ret (Unit {0}) × Grow → Type 0
Outcome g size r =
    IsGrow r.1
    × Others g r.1
    × NoLeak g r.1
    × (r.0 ≡ ok tt → (p : ℕ) × (r.1.buf ≡ some p) × (size ≤ r.1.heap.size_of p))

abbrev grow : Heap → Option ℕ → ℕ → Grow
grow h buf size = record { heap = h; buf = buf; cap = size }

kept : (g : Grow) (size : ℕ) (e : Errno) → IsGrow g → Outcome g size (err e, g)
kept g size e v = (v, (λ p a b. refl), (λ p a. inl a), λ f. absurd (cc f))

regrown :
    (granted : Bool) (h : Heap) (buf : Option ℕ) (old size : ℕ)
    → IsGrow (grow h buf old)
    → 0 < size
    → size ≤ max_fb_bytes
    → Outcome (grow h buf old) size (regrow granted (grow h buf old) size)
regrown true h none old size v pos small = (
  record { block = ground arith; unborn = λ q a. ground (arith, v.unborn q) },
  (λ q a b. ground arith),
  (λ q a. absurd (cc a)),
  λ f. (h.next, refl, ground arith),
)
regrown true h (some p) old size v pos small = (
  record { block = ground arith; unborn = λ q a. ground (arith, v.unborn q) },
  (λ q a b. ground arith),
  (λ q a. inr (ground arith)),
  λ f. (h.next, refl, ground arith),
)
regrown false h none old size v pos small = (
  record { block = refl; unborn = λ q a. v.unborn q a },
  (λ q a b. refl),
  (λ q a. absurd (cc a)),
  λ f. absurd (cc f),
)
regrown false h (some p) old size v pos small = (
  record { block = refl; unborn = λ q a. ground (arith, v.unborn q) },
  (λ q a b. ground arith),
  (λ q a. inr (ground arith)),
  λ f. absurd (cc f),
)

-- A buffer that already holds `size` bytes is kept, and any other is replaced.
fitting :
    (granted : Bool) (h : Heap) (buf : Option ℕ) (old size : ℕ)
    → IsGrow (grow h buf old)
    → 0 < size
    → size ≤ max_fb_bytes
    → Outcome (grow h buf old) size (
        if holds buf old size
        then (ok tt, grow h buf old)
        else regrow granted (grow h buf old) size)
fitting granted h none old size v pos small = regrown granted h none old size v pos small
fitting granted h (some p) old size v pos small = elim (Bool-cases (leb size old)) [
  | inl enough ↦ rw enough (v, (λ q a b. refl), (λ q a. inl a), λ f. (p, refl, ground arith))
  | inr short ↦ rw short (regrown granted h (some p) old size v pos small)
]

ensure_buf-grow :
    (granted : Bool) (h : Heap) (buf : Option ℕ) (old size : ℕ)
    → IsGrow (grow h buf old)
    → Outcome (grow h buf old) size (ensure_buf granted (grow h buf old) size)
unfolding ensure_buf
ensure_buf-grow granted h buf old size v = elim (Bool-cases (size == 0)) [
  | inl z ↦ rw z (kept (grow h buf old) size einval v)
  | inr nz ↦ rw nz (elim (Bool-cases (ltb max_fb_bytes size)) [
    | inl big ↦ rw big (kept (grow h buf old) size efbig v)
    | inr small ↦ rw small (fitting granted h buf old size v (ground arith) (ground arith))
  ])
]

-- Every outcome of ensure_buf: the buffer stays a live block within the cap, no other block is
-- touched, a replaced buffer has been freed, and on success it holds `size` bytes.
pub ensure_buf-Outcome :
    (granted : Bool) (g : Grow) (size : ℕ) → IsGrow g → Outcome g size (ensure_buf granted g size)
ensure_buf-Outcome granted g size v = ensure_buf-grow granted g.heap g.buf g.cap size v

-- The destination has room for `size` bytes and is the one that the caller asked for.
abbrev pub HasRoom : Out → ℕ → Out → Dest → Type 0
HasRoom c size c' (user p) =
    (c.user_out ≡ some p) × (size ≤ c.user_out_len) × (c'.deswizzle ≡ c.deswizzle)
HasRoom c size c' (owned b) =
    (c.user_out ≡ none) × (p : ℕ) × (b ≡ some p) × (size ≤ c'.deswizzle.heap.size_of p)

abbrev pub Chosen : Out → ℕ → Ret Dest × Out → Type 0
Chosen c size r =
    IsGrow r.1.deswizzle
    × (r.1.user_out ≡ c.user_out)
    × (r.1.user_out_len ≡ c.user_out_len)
    × ((dst : Dest) → r.0 ≡ ok dst → (size ≤ max_fb_bytes) × HasRoom c size r.1 dst)

at_dest : (P : Dest → Type 0) (d dst : Dest) → ok d ≡ ok dst → P d → P dst
at_dest P d dst e h = let same : d ≡ dst = cc in subst P same h

refused :
    (c : Out) (size gen : ℕ) (e : Errno)
    → IsGrow c.deswizzle
    → Chosen c size (err e, record c { out_gen = gen })
refused c size gen e v = (v, refl, refl, λ dst f. absurd (cc f))

owned-Chosen :
    (c : Out) (size gen : ℕ) (r : Ret (Unit {0}) × Grow)
    → c.user_out ≡ none
    → size ≤ max_fb_bytes
    → Outcome c.deswizzle size r
    → Chosen c size (owned_out (record c { out_gen = gen }) r)
owned-Chosen c size gen (ok _, g) none_set small o = (
  o.0,
  refl,
  refl,
  λ dst f. (
    small,
    at_dest (HasRoom c size (record c { deswizzle = g; out_gen = gen })) (owned g.buf) dst f
        (none_set, (o.3 refl).0, (o.3 refl).1, (o.3 refl).2),
  ),
)
owned-Chosen c size gen (err e, g) none_set small o = (o.0, refl, refl, λ dst f. absurd (cc f))

choose-Chosen :
    (granted : Bool) (c : Out) (size gen : ℕ) (u : Option ℕ)
    → c.user_out ≡ u
    → size ≤ max_fb_bytes
    → IsGrow c.deswizzle
    → Chosen c size (choose_out u granted (record c { out_gen = gen }) size)
choose-Chosen granted c size gen none e small v =
    owned-Chosen c size gen (ensure_buf granted c.deswizzle size) e small
      (ensure_buf-Outcome granted c.deswizzle size v)
choose-Chosen granted c size gen (some p) e small v = elim (Bool-cases (ltb c.user_out_len size)) [
  | inl short ↦ rw short (refused c size gen enospc v)
  | inr room ↦ rw room (
    v,
    refl,
    refl,
    λ dst f. (
      small,
      at_dest (HasRoom c size (record c { out_gen = gen })) (user p) dst f (e, ground arith, refl),
    ),
  )
]

-- Every outcome of ensure_out: the caller's buffer settings stay, the owned buffer stays well
-- formed, and on success the destination has room for the frame, which is within the cap; it is
-- the caller's memory if and only if the caller set one, and then nothing is allocated.
pub ensure_out-Chosen :
    (granted : Bool) (c : Out) (size : ℕ)
    → IsGrow c.deswizzle
    → Chosen c size (ensure_out granted c size)
unfolding ensure_out
ensure_out-Chosen granted c size v = elim (Bool-cases (size == 0)) [
  | inl z ↦ rw z (refused c size c.out_gen einval v)
  | inr nz ↦ rw nz (elim (Bool-cases (ltb max_fb_bytes size)) [
    | inl big ↦ rw big (refused c size (u32 (c.out_gen + 1)) efbig v)
    | inr small ↦
        rw small
          (choose-Chosen granted c size (u32 (c.out_gen + 1)) c.user_out refl (ground arith) v)
  ])
]

-- After a success there is a buffer, whatever was there before.
abbrev HasBuf : Ret (Unit {0}) × Grow → Type 0
HasBuf r = r.0 ≡ ok tt → (p : ℕ) × (r.1.buf ≡ some p)

regrow-HasBuf : (granted : Bool) (g : Grow) (size : ℕ) → HasBuf (regrow granted g size)
regrow-HasBuf true g size e = ((free g.buf g.heap).next, refl)
regrow-HasBuf false g size e = absurd (cc e)

fitting-HasBuf :
    (granted : Bool) (h : Heap) (buf : Option ℕ) (old size : ℕ)
    → HasBuf (
        if holds buf old size
        then (ok tt, grow h buf old)
        else regrow granted (grow h buf old) size)
fitting-HasBuf granted h none old size = regrow-HasBuf granted (grow h none old) size
fitting-HasBuf granted h (some p) old size = elim (Bool-cases (leb size old)) [
  | inl enough ↦ rw enough (λ e. (p, refl))
  | inr short ↦ rw short (regrow-HasBuf granted (grow h (some p) old) size)
]

pub ensure_buf-HasBuf :
    (granted : Bool) (h : Heap) (buf : Option ℕ) (old size : ℕ)
    → let r = ensure_buf granted (record { heap = h; buf = buf; cap = old }) size in
      r.0 ≡ ok tt → (p : ℕ) × (r.1.buf ≡ some p)
unfolding ensure_buf
ensure_buf-HasBuf granted h buf old size = elim (Bool-cases (size == 0)) [
  | inl z ↦ rw z (λ e. absurd (cc e))
  | inr nz ↦ rw nz (elim (Bool-cases (ltb max_fb_bytes size)) [
    | inl big ↦ rw big (λ e. absurd (cc e))
    | inr small ↦ rw small (fitting-HasBuf granted h buf old size)
  ])
]

-- A buffer that was set gets every frame that it holds, and refuses larger ones without writing.
pub ensure_out-set_output_buffer :
    (granted : Bool) (c : Out) (p len size : ℕ)
    → 0 < len
    → 0 < size
    → size ≤ max_fb_bytes
    → (ensure_out granted (set_output_buffer (some p) len c).1 size).0
      ≡ (if ltb len size then err enospc else ok (user p))
unfolding ensure_out set_output_buffer
ensure_out-set_output_buffer granted c p len size some_len some_size small =
    let has_len : (len == 0) ≡ false = ground (arith, some_len) in
    let has_size : (size == 0) ≡ false = ground (arith, some_size) in
    let fits : ltb max_fb_bytes size ≡ false = ground (arith, small) in
    rw (has_len, has_size, fits)
      (elim (Bool-cases (ltb len size)) [ inl short ↦ rw short refl | inr enough ↦ rw enough refl ])
