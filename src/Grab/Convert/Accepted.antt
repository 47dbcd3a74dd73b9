-- ===== src/Grab/Convert/Accepted.antt =====
-- What drmtap_convert_dmabuf has made sure of when it succeeds.
use libdrmtap.Prelude.{
  ℕ, zero, suc, ◌+◌, ◌-◌, ◌*◌, ◌≤◌, ◌<◌, ◌≡◌, Bool, true, false, Option, none, some, List, [], ◌∷◌,
  get_elem?, refl, arith,
}
use libdrmtap.Errno.{Ret, ok, err}
use libdrmtap.Grab.Fast.Frame.{Frame}
use libdrmtap.Grab.OneShot.Call.{Desc}
use libdrmtap.Grab.Convert.{
  probe_size, Answers, Staged, num_planes, pitch, offset, tail, check_desc, staged_frame, aux_fit,
  all_fit, refuse_unless, first_probe, probe_fd, on_probe, probed, on_check, convert_dmabuf,
}
use libdrmtap.Grab.Convert.Sound.{IsDesc, check_desc_iff}

-- The main plane lies in a buffer of `size` bytes, and of each other plane the first row does.
abbrev pub Backed : Desc → ℕ → Type 0
Backed d size =
    (offset d + pitch d * d.height ≤ size)
    × ((p o q : ℕ)
        → suc p < num_planes d
        → get_elem? (tail d.offsets) p ≡ some o
        → get_elem? (tail d.pitches) p ≡ some q
        → o + q ≤ size)

aux_fit_sound :
    (n : ℕ) (os ps : List ℕ) (size p o q : ℕ)
    → aux_fit n os ps size ≡ true
    → p < n
    → get_elem? os p ≡ some o
    → get_elem? ps p ≡ some q
    → o + q ≤ size
unfolding aux_fit
aux_fit_sound zero os ps size p o q fits below eo eq = absurd (omega arith)
aux_fit_sound (suc n) [] ps size p o q fits below eo eq = absurd (cc eo)
aux_fit_sound (suc n) (x ∷ os) [] size p o q fits below eo eq = absurd (cc eq)
aux_fit_sound (suc n) (x ∷ os) (y ∷ ps) size zero o q fits below eo eq = ground arith
aux_fit_sound (suc n) (x ∷ os) (y ∷ ps) size (suc p) o q fits below eo eq =
    ground (arith, aux_fit_sound n os ps size p o q)

all_fit-Backed : (d : Desc) (size : ℕ) → all_fit d size ≡ true → Backed d size
all_fit-Backed d size e = (
  ground (arith, e),
  λ p o q below eo eq.
      let n = num_planes d - 1 in
      let aux : aux_fit n (tail d.offsets) (tail d.pitches) size ≡ true = ground (arith, e) in
      aux_fit_sound n (tail d.offsets) (tail d.pitches) size p o q aux (omega arith) eo eq,
)

-- A success means a descriptor that makes sense and, if it has an fd, that the kernel took it for a
-- DMA-BUF that holds what the descriptor says: before EGL or the CPU was given it.
abbrev pub Accepted : Answers → Desc → Type 0
Accepted a d =
    IsDesc d
    × ((fd : ℕ) → d.dma_buf_fd ≡ some fd → (a.first.granted ≡ true) × Backed d (probe_size a.first))

module _ (a : Answers) (d : Desc) where
  fits : (b : Bool) (f : Frame) → (on_probe a d (refuse_unless b) f).1 ≡ ok tt → b ≡ true
  fits true f e = refl
  fits false f e = absurd (cc e)

  first_probe-Backed :
      (granted : Bool) (fd : ℕ) (f : Frame)
      → (probed a d (first_probe granted a.first fd d) f).1 ≡ ok tt
      → (granted ≡ true) × Backed d (probe_size a.first)
  first_probe-Backed false fd f e = absurd (cc e)
  first_probe-Backed true fd f e =
      (refl, all_fit-Backed d (probe_size a.first) (fits (all_fit d (probe_size a.first)) f e))

  probed-Backed :
      (g : Option ℕ) (f : Frame)
      → (probed a d (probe_fd g a.first d) f).1 ≡ ok tt
      → (fd : ℕ) → g ≡ some fd
      → (a.first.granted ≡ true) × Backed d (probe_size a.first)
  probed-Backed none f e fd none_given = absurd (cc none_given)
  probed-Backed (some fd) f e _ given = first_probe-Backed a.first.granted fd f e

pub convert_dmabuf-Accepted :
    (a : Answers) (d : Desc) (f : Frame) (s : Staged)
    → (convert_dmabuf a d f s).0.1 ≡ ok tt
    → Accepted a d
unfolding convert_dmabuf
convert_dmabuf-Accepted a d f s e = checked (check_desc d) refl e
  where
    checked :
        (r : Ret (Unit {0})) → check_desc d ≡ r → (on_check a d r f s).0.1 ≡ ok tt → Accepted a d
    checked (err x) refused e = absurd (cc e)
    checked (ok _) accepted e =
        ((check_desc_iff d).0 accepted, probed-Backed a d d.dma_buf_fd (staged_frame d) e)
