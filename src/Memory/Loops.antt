-- ===== src/Memory/Loops.antt =====
-- Loops that fill an image: a row of pixels is one write, and the rows do not touch one another.
use mathlib.Core.Path.{fun_ext}
use libdrmtap.Prelude.{
  ℕ, zero, suc, ◌+◌, ◌-◌, ◌*◌, ◌/◌, ◌%◌, ◌≤◌, ◌<◌, ◌&&◌, ◌≡◌, refl, sym, ap, subst, ◌∙◌, ◌⊎◌, inl,
  Option, some, arith, row-le, dec_lt, ltb, leb, if◌then◌else◌,
}
use libdrmtap.Memory.{Buffer, write, loop, for_pixels}

-- The buffer after `write`, where it is in range.
abbrev pub written : Buffer → ℕ → ℕ → (ℕ → ℕ) → Buffer
written d off n f = record d {
  at = λ i. if leb off i && ltb i (off + n) then f (i - off) else d.at i;
}

pub write_in_range :
    (d : Buffer) (off n : ℕ) (f : ℕ → ℕ)
    → off + n ≤ d.len
    → write d off n f ≡ some (written d off n f)
unfolding write
write_in_range d off n f h = ground arith

pub write_ext :
    (d : Buffer) (off n : ℕ) (f g : ℕ → ℕ)
    → ((k : ℕ) → f k ≡ g k)
    → write d off n f ≡ write d off n g
write_ext d off n f g h = ap (write d off n) (fun_ext h)

pub loop-suc {ℓ} :
    {S : Type ℓ} (n i : ℕ) (body : ℕ → S → Option S) (s t : S)
    → body i s ≡ some t
    → loop (suc n) i body s ≡ loop n (i + 1) body t
unfolding loop
loop-suc n i body s t e = ground arith

-- The bytes of the pixels from `x` on.
abbrev pub pixels_from : (ℕ → ℕ → ℕ) → ℕ → ℕ → ℕ
pixels_from px x k = px (x + k / 4) (k % 4)

module _ (px : ℕ → ℕ → ℕ) where
  pixels_first : (x k : ℕ) → k < 4 → pixels_from px x k ≡ px x k
  pixels_first x k h = ap (λ t. px t (k % 4)) (omega arith) ∙ ap (px x) (omega arith)

  pixels_later : (x k j : ℕ) → k ≡ j + 4 → pixels_from px x k ≡ pixels_from px (x + 1) j
  pixels_later x k j e =
      ap (λ t. px t (k % 4)) (omega arith) ∙ ap (px (x + 1 + j / 4)) (omega arith)

  one_more :
      (o n x : ℕ) (d : Buffer)
      → written (written d (o + x * 4) 4 (px x)) (o + (x + 1) * 4) (n * 4) (pixels_from px (x + 1))
        ≡ written d (o + x * 4) (suc n * 4) (pixels_from px x)
  one_more o n x d = λ p. record d { at = bytes p }
    where
      bytes :
          (written
            (written d (o + x * 4) 4 (px x))
            (o + (x + 1) * 4)
            (n * 4)
            (pixels_from px (x + 1))).at
          ≡ (written d (o + x * 4) (suc n * 4) (pixels_from px x)).at
      bytes = fun_ext λ i. ground (
        arith,
        pixels_first x (i - (o + x * 4)),
        pixels_later x (i - (o + x * 4)) (i - (o + (x + 1) * 4)),
      )

  no_more : (o x : ℕ) (d : Buffer) → d ≡ written d (o + x * 4) (zero * 4) (pixels_from px x)
  no_more o x d = λ p. record d { at = bytes p }
    where
      bytes : d.at ≡ (written d (o + x * 4) (zero * 4) (pixels_from px x)).at
      bytes = fun_ext λ i. ground arith

  -- A loop that stores one pixel after the other writes the row.
  pub loop-row :
      (o w len : ℕ) (body : ℕ → Buffer → Option Buffer)
      → ((x : ℕ) (d : Buffer) → x < w → d.len ≡ len → body x d ≡ write d (o + x * 4) 4 (px x))
      → (n x : ℕ) (d : Buffer) → x + n ≡ w
      → o + w * 4 ≤ len
      → d.len ≡ len
      → loop n x body d ≡ write d (o + x * 4) (n * 4) (pixels_from px x)
  loop-row o w len body step zero x d e fits l =
      unfold loop in
      ap some (no_more o x d)
      ∙ sym (write_in_range d (o + x * 4) (zero * 4) (pixels_from px x) (omega arith))
  loop-row o w len body step (suc n) x d e fits l =
      let d' : Buffer = written d (o + x * 4) 4 (px x) in
      let first : body x d ≡ some d' =
        step x d (omega arith) l ∙ write_in_range d (o + x * 4) 4 (px x) (omega arith) in
      let rest = loop-row o w len body step n (x + 1) d' (omega arith) fits l in
      loop-suc n x body d d' first
      ∙ rest
      ∙ write_in_range d' (o + (x + 1) * 4) (n * 4) (pixels_from px (x + 1)) (omega arith)
      ∙ ap some (one_more o n x d)
      ∙ sym (write_in_range d (o + x * 4) (suc n * 4) (pixels_from px x) (omega arith))

-- `result` is a normal return that wrote the rows `lo … hi - 1`, each `rb` bytes at a distance
-- of `ds`, and left every other byte alone.
pub record Painted (ds rb : ℕ) (row : ℕ → ℕ → ℕ) (lo hi : ℕ) (d : Buffer) (result : Option Buffer)
    : Type 0 where
  pub out : Buffer
  pub returns : result ≡ some out
  pub same_len : out.len ≡ d.len
  pub inside : (y k : ℕ) → lo ≤ y → y < hi → k < rb → out.at (y * ds + k) ≡ row y k
  pub outside :
      (i : ℕ) → ((y : ℕ) → lo ≤ y → y < hi → (i < y * ds) ⊎ (y * ds + rb ≤ i)) → out.at i ≡ d.at i

module _ (ds rb : ℕ) (row : ℕ → ℕ → ℕ) (narrow : rb ≤ ds) where
  row_apart : (y z k : ℕ) → y < z → k < rb → y * ds + k < z * ds
  row_apart y z k h p = omega (arith, row-le y z ds h)

  Painted-write :
      (y hi : ℕ) (d : Buffer) (result : Option Buffer)
      → y < hi
      → Painted ds rb row (y + 1) hi (written d (y * ds) rb (row y)) result
      → Painted ds rb row y hi d result
  Painted-write y hi d result below rest = record {
    out = rest.out;
    returns = rest.returns;
    same_len = rest.same_len;
    inside = λ z k p q r. here_or_later z k p q r (dec_lt y z);
    outside = λ i p.
        ground (arith, rest.outside i (λ z u v. p z (omega arith) v), p y (omega arith) below);
  }
    where
      here_or_later :
          (z k : ℕ) → y ≤ z → z < hi → k < rb → Dec (y < z) → rest.out.at (z * ds + k) ≡ row z k
      here_or_later z k p q r (yes later) = rest.inside z k (omega arith) q r
      here_or_later z k p q r (no here) =
          let e : z ≡ y = omega arith in
          rw e (
            rest.outside (y * ds + k) (λ u p' q'. inl (row_apart y u k (omega arith) r))
            ∙ ground arith)

  -- A loop that writes one row after the other paints them.
  pub loop-Painted :
      (hi len : ℕ) (body : ℕ → Buffer → Option Buffer)
      → ((y : ℕ) (d : Buffer) → y < hi → d.len ≡ len → body y d ≡ write d (y * ds) rb (row y))
      → (n y : ℕ) (d : Buffer) → y + n ≡ hi
      → hi * ds ≤ len
      → d.len ≡ len
      → Painted ds rb row y hi d (loop n y body d)
  loop-Painted hi len body step zero y d e fits l = record {
    out = d;
    returns = unfold loop in refl;
    same_len = refl;
    inside = λ z k p q r. absurd (omega arith);
    outside = λ i p. refl;
  }
  loop-Painted hi len body step (suc n) y d e fits l =
      let d' : Buffer = written d (y * ds) rb (row y) in
      let in_range : y * ds + rb ≤ d.len = omega (arith, row-le y hi ds (omega arith)) in
      let first : body y d ≡ some d' =
        step y d (omega arith) l ∙ write_in_range d (y * ds) rb (row y) in_range in
      rw (loop-suc n y body d d' first) (
        Painted-write y hi d (loop n (y + 1) body d') (omega arith)
          (loop-Painted hi len body step n (y + 1) d' (omega arith) fits l))

-- A double loop that stores pixel `x` of row `y` at `y * ds + x * 4` paints the image.
pub for_pixels-Painted :
    (w h ds : ℕ) (px : ℕ → ℕ → ℕ → ℕ) (body : ℕ → ℕ → Buffer → Option Buffer) (d : Buffer)
    → w * 4 ≤ ds
    → h * ds ≤ d.len
    → ((y x : ℕ) (d' : Buffer)
        → y < h
        → x < w
        → d'.len ≡ d.len
        → body y x d' ≡ write d' (y * ds + x * 4) 4 (px y x))
    → Painted ds (w * 4) (λ y. pixels_from (px y) 0) 0 h d (for_pixels w h body d)
unfolding for_pixels
for_pixels-Painted w h ds px body d narrow fits step =
    loop-Painted ds (w * 4) (λ y. pixels_from (px y) 0) narrow h d.len
      (λ y d'. loop w 0 (body y) d')
      (λ y d' below l.
        loop-row (px y) (y * ds) w d.len (body y) (λ x e p q. step y x e below p q) w 0 d'
          (omega arith) (omega (arith, row-le y h ds below)) l
        ∙ ap (λ t. write d' t (w * 4) (pixels_from (px y) 0)) (omega arith))
      h 0 d (omega arith) fits refl

-- A loop whose every step succeeds and keeps `P` succeeds and keeps it.
pub loop-keeps {ℓ κ} :
    {S : Type ℓ} (P : ℕ → S → Type κ) (n i : ℕ) (body : ℕ → S → Option S) (s : S)
    → ((j : ℕ) (t : S) → i ≤ j → j < i + n → P j t → (t' : S) × (body j t ≡ some t') × P (j + 1) t')
    → P i s
    → (s' : S) × (loop n i body s ≡ some s') × P (i + n) s'
unfolding loop
loop-keeps P zero i body s each p = (s, refl, subst (λ k. P k s) (omega arith) p)
loop-keeps P (suc n) i body s each p =
    let (t, e, q) = each i s (omega arith) (omega arith) p in
    let (s', e', r) =
      loop-keeps P n (i + 1) body t (λ j u lo hi. each j u (omega arith) (omega arith)) q in
    (s', loop-suc n i body s t e ∙ e', subst (λ k. P k s') (omega arith) r)
