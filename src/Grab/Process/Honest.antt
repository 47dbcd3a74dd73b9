-- ===== src/Grab/Process/Honest.antt =====
-- What a frame that gpu_auto_process hands on as processed can be.
use libdrmtap.Prelude.{
  ◌≡◌, ◌⊎◌, inl, inr, refl, subst, arith, Bool, ◌&&◌, not, true, false, ◌==◌, if◌then◌else◌, none,
  some, Bool-cases,
}
use libdrmtap.Errno.{Errno, Ret, ok, err, and_then}
use libdrmtap.Pixel.Tiling.{mod_linear, mod_invalid}
use libdrmtap.Pixel.Format.{xrgb8888, is_ten_bit}
use libdrmtap.Grab.Process.{
  reduced, egl_read, detiled, detiled_reduced, Frame, Backends, is_wide, reduce_linear,
  reduced_frame, egl_frame, or_as_is, finish_ten_bit, on_out, on_layout, has_data, on_cpu, on_egl,
  has_fd, try_egl, on_egl_error, is_enospc, on_linear, is_linear, by_linearity, auto_process,
}

abbrev pub IsLinear : Frame → Type 0
IsLinear f = (f.modifier ≡ mod_linear) ⊎ (f.modifier ≡ mod_invalid)

-- A frame handed on: as it came, if it has no mapping or is linear 8-bit (an unknown layout counts as
-- linear); or converted to XRGB8888; or detiled on the CPU in its own format, which is not 10-bit.
-- A frame whose readback was forced has been read by EGL.
abbrev pub Good : Bool → Frame → Frame → Type 0
Good force f g =
    (((g ≡ f) × ((has_data f.data_at ≡ false) ⊎ ((is_wide f.format ≡ false) × IsLinear f)))
      ⊎ ((((g.data_at ≡ reduced) ⊎ ((g.data_at ≡ egl_read) ⊎ (g.data_at ≡ detiled_reduced)))
            × (g.format ≡ xrgb8888))
          ⊎ ((g ≡ record f { data_at = detiled }) × (is_ten_bit f.format ≡ false) × ¬ IsLinear f)))
    × (force ≡ true → g.data_at ≡ egl_read)

abbrev pub Honest : Bool → Frame → Ret Frame → Type 0
Honest force f r = (g : Frame) → r ≡ ok g → Good force f g

failed-Honest : (force : Bool) (f : Frame) (e : Errno) → Honest force f (err e)
failed-Honest force f e g h = absurd (cc h)

-- One frame handed on.
ok-Honest : (force : Bool) (f g : Frame) → Good force f g → Honest force f (ok g)
ok-Honest force f g good k e = let same : g ≡ k = cc e in subst (Good force f) same good

reduce-Honest :
    (b : Backends) (f : Frame) → IsLinear f → Honest false f (or_as_is f (reduce_linear b f))
unfolding reduce_linear
reduce-Honest b f linear = by_width (is_wide f.format) refl
  where
    by_width :
        (w : Bool)
        → is_wide f.format ≡ w
        → Honest false f (
            or_as_is f (
              if w
              then and_then b.out (λ _. and_then b.reduce (λ _. ok (some (reduced_frame f))))
              else ok none))
    by_width false e = ok-Honest false f f (inl (refl, inr (e, linear)), λ h. absurd (cc h))
    by_width true e = by_results b.out b.reduce
      where
        by_results :
            (o r : Ret (Unit {0}))
            → Honest false f
                (or_as_is f (and_then o (λ _. and_then r (λ _. ok (some (reduced_frame f))))))
        by_results (err x) r = failed-Honest false f x
        by_results (ok _) (err x) = failed-Honest false f x
        by_results (ok _) (ok _) =
            ok-Honest false f (reduced_frame f) (inr (inl (inl refl, refl)), λ h. absurd (cc h))

finish-Honest :
    (ten : Bool) (r : Ret (Unit {0})) (f : Frame)
    → is_ten_bit f.format ≡ ten
    → ¬ IsLinear f
    → Honest false f (finish_ten_bit ten r f)
finish-Honest false r f e tiled =
    ok-Honest false f (record f { data_at = detiled })
      (inr (inr (refl, e, tiled)), λ h. absurd (cc h))
finish-Honest true (err x) f e tiled = failed-Honest false f x
finish-Honest true (ok _) f e tiled =
    ok-Honest false f (record f { data_at = detiled_reduced; format = xrgb8888 })
      (inr (inl (inr (inr refl), refl)), λ h. absurd (cc h))

on_out-Honest :
    (o d : Ret (Unit {0})) (driver : Bool) (b : Backends) (f : Frame)
    → ¬ IsLinear f
    → o ≡ b.out
    → d ≡ b.deswizzle
    → driver ≡ b.known_driver
    → Honest false f (on_out o (record b { deswizzle = d; known_driver = driver }) f)
on_out-Honest (err x) d driver b f tiled p q r = failed-Honest false f x
on_out-Honest (ok _) d false b f tiled p q r = failed-Honest false f _
on_out-Honest (ok _) (err x) true b f tiled p q r = failed-Honest false f x
on_out-Honest (ok _) (ok _) true b f tiled p q r =
    finish-Honest (is_ten_bit f.format) b.convert_ten_bit f refl tiled

on_layout-Honest :
    (b : Backends) (f : Frame)
    → ¬ (f.modifier ≡ mod_linear)
    → Honest false f (on_layout (f.modifier == mod_invalid) b f)
on_layout-Honest b f not_linear = by_modifier (f.modifier == mod_invalid) refl
  where
    by_modifier : (i : Bool) → (f.modifier == mod_invalid) ≡ i → Honest false f (on_layout i b f)
    by_modifier true e = reduce-Honest b f (inr (ground (arith, e)))
    by_modifier false e = on_out-Honest b.out b.deswizzle b.known_driver b f tiled refl refl refl
      where
        tiled : ¬ IsLinear f
        tiled (inl l) = not_linear l
        tiled (inr l) = absurd (ground (arith, e, l))

on_cpu-Honest :
    (force mapping : Bool) (b : Backends) (f : Frame)
    → (force ≡ false → ¬ (f.modifier ≡ mod_linear))
    → Honest force f (on_cpu force mapping b f)
on_cpu-Honest true mapping b f not_linear = failed-Honest true f _
on_cpu-Honest false false b f not_linear = failed-Honest false f _
on_cpu-Honest false true b f not_linear = on_layout-Honest b f (not_linear refl)

on_egl_error-Honest :
    (full : Bool) (e : Errno) (force : Bool) (b : Backends) (f : Frame)
    → (force ≡ false → ¬ (f.modifier ≡ mod_linear))
    → Honest force f (on_egl_error full e force b f)
on_egl_error-Honest true e force b f n = failed-Honest force f e
on_egl_error-Honest false e force b f n = on_cpu-Honest force (has_data f.data_at) b f n

on_egl-Honest :
    (r : Ret Bool) (force : Bool) (b : Backends) (f : Frame)
    → (force ≡ false → ¬ (f.modifier ≡ mod_linear))
    → Honest force f (on_egl r force b f)
on_egl-Honest (ok true) force b f n =
    ok-Honest force f (egl_frame f) (inr (inl (inr (inl refl), refl)), λ h. refl)
on_egl-Honest (ok false) force b f n = on_cpu-Honest force (has_data f.data_at) b f n
on_egl-Honest (err e) force b f n = on_egl_error-Honest (is_enospc e) e force b f n

try_egl-Honest :
    (usable force : Bool) (b : Backends) (f : Frame)
    → (force ≡ false → ¬ (f.modifier ≡ mod_linear))
    → Honest force f (try_egl usable force b f)
try_egl-Honest false force b f n = on_cpu-Honest force (has_data f.data_at) b f n
try_egl-Honest true force b f n = on_egl-Honest b.egl_convert force b f n

on_linear-Honest :
    (mapping : Bool) (b : Backends) (f : Frame)
    → has_data f.data_at ≡ mapping
    → IsLinear f
    → Honest false f (on_linear mapping b f)
on_linear-Honest true b f e linear = reduce-Honest b f linear
on_linear-Honest false b f e linear = ok-Honest false f f (inl (refl, inl e), λ h. absurd (cc h))

by_linearity-Honest :
    (linear force : Bool) (b : Backends) (f : Frame)
    → (is_linear b f && not force) ≡ linear
    → Honest force f (by_linearity linear force b f)
by_linearity-Honest true true b f e = absurd (ground (arith, e))
by_linearity-Honest true false b f e =
    on_linear-Honest (has_data f.data_at) b f refl (ground (arith, e))
by_linearity-Honest false force b f e =
    try_egl-Honest (has_fd f.dma_buf_fd && b.egl_available) force b f
      (λ h l. ground (arith, e, h, l))

-- Whatever the backends answer, a frame that gpu_auto_process hands on is one of these: as it came,
-- if there is no mapping or the pixels are linear and 8-bit, an unknown layout counting as linear;
-- converted to XRGB8888; or detiled on the CPU in its own format, which is not a 10-bit one. A frame
-- with a known tiling is never handed on undecoded from its mapping, and a forced readback is handed
-- on only as read by EGL.
pub auto_process-Good :
    (force : Bool) (b : Backends) (f g : Frame) → auto_process force b f ≡ ok g → Good force f g
unfolding auto_process
auto_process-Good force b f g =
    elim (Bool-cases (not (has_data f.data_at) && (not force && not (has_fd f.dma_buf_fd)))) [
      | inl nothing ↦ rw nothing (idle nothing g)
      | inr something ↦
          rw something (by_linearity-Honest (is_linear b f && not force) force b f refl g)
    ]
  where
    idle :
        (not (has_data f.data_at) && (not force && not (has_fd f.dma_buf_fd))) ≡ true
        → Honest force f (ok f)
    idle e =
        ok-Honest force f f
          (inl (refl, inl (ground (arith, e))), λ h. absurd (ground (arith, e, h)))
