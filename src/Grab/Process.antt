-- ===== src/Grab/Process.antt =====
-- gpu_auto_process and reduce_linear_to_xrgb8888 of src/drm_grab.c: which path turns a grabbed
-- frame into linear 8-bit pixels, and when there is none.
pub mod Honest
use libdrmtap.Prelude.{
  ℕ, ◌+◌, ◌*◌, Bool, ◌&&◌, ◌||◌, not, true, false, ◌==◌, if◌then◌else◌, u32, Option, none, some,
}
use libdrmtap.Errno.{Errno, Ret, ok, err, enotsup, enospc, and_then}
use libdrmtap.Pixel.Tiling.{mod_linear, mod_invalid}
use libdrmtap.Pixel.Format.{xrgb8888, is_ten_bit}

-- Where frame->data points: nowhere, to the mapping as grabbed, or to the output buffer after it was
-- filled by the reduction of linear pixels, by EGL, by the CPU deswizzle, or by the deswizzle and
-- the reduction of 10-bit pixels in place.
pub data Pixels : Type 0 where
  absent raw reduced egl_read detiled detiled_reduced : Pixels

pub record Frame : Type 0 where
  pub data_at : Pixels
  pub dma_buf_fd : Option ℕ
  pub width : ℕ
  pub stride : ℕ
  pub format : ℕ
  pub modifier : ℕ

-- What the rest of the library answers: whether EGL is built in and usable, drmtap_ensure_out, the
-- converters, drmtap_gpu_egl_convert (with whether it gave pixels), whether the driver is one with a
-- CPU deswizzle, and drmtap_deswizzle.
pub record Backends : Type 0 where
  pub egl_available : Bool
  pub out : Ret (Unit {0})
  pub reduce : Ret (Unit {0})
  pub egl_convert : Ret Bool
  pub known_driver : Bool
  pub deswizzle : Ret (Unit {0})
  pub convert_ten_bit : Ret (Unit {0})

-- The 16-bit and half-float formats.
abbrev pub is_rgb16 : ℕ → Bool
is_rgb16 f = (f == 0x38345258) || ((f == 0x38345241) || ((f == 0x38344258) || (f == 0x38344241)))

abbrev pub is_rgb16f : ℕ → Bool
is_rgb16f f = (f == 0x48345258) || ((f == 0x48345241) || ((f == 0x48344258) || (f == 0x48344241)))

abbrev pub is_wide : ℕ → Bool
is_wide f = is_ten_bit f || (is_rgb16 f || is_rgb16f f)

-- The reduction of linear pixels: the new frame, or none where they are 8-bit already.
abbrev pub reduced_frame : Frame → Frame
reduced_frame f = record f { data_at = reduced; format = xrgb8888; stride = u32 (f.width * 4) }

unfoldable pub reduce_linear : Backends → Frame → Ret (Option Frame)
reduce_linear b f =
    if is_wide f.format
    then and_then b.out (λ _. and_then b.reduce (λ _. ok (some (reduced_frame f))))
    else ok none

abbrev pub or_as_is : Frame → Ret (Option Frame) → Ret Frame
or_as_is f (err e) = err e
or_as_is f (ok (some f')) = ok f'
or_as_is f (ok none) = ok f

-- After the CPU deswizzle: 10-bit pixels are reduced in place.
abbrev pub finish_ten_bit : Bool → Ret (Unit {0}) → Frame → Ret Frame
finish_ten_bit false r f = ok (record f { data_at = detiled })
finish_ten_bit true (err e) f = err e
finish_ten_bit true (ok _) f = ok (record f { data_at = detiled_reduced; format = xrgb8888 })

abbrev pub after_deswizzle : Ret (Unit {0}) → Backends → Frame → Ret Frame
after_deswizzle (err e) b f = err e
after_deswizzle (ok _) b f = finish_ten_bit (is_ten_bit f.format) b.convert_ten_bit f

abbrev pub by_driver : Bool → Backends → Frame → Ret Frame
by_driver false b f = err enotsup
by_driver true b f = after_deswizzle b.deswizzle b f

abbrev pub on_out : Ret (Unit {0}) → Backends → Frame → Ret Frame
on_out (err e) b f = err e
on_out (ok _) b f = by_driver b.known_driver b f

-- The CPU paths: an unknown layout is taken as linear, a tiling is decoded.
abbrev pub on_layout : Bool → Backends → Frame → Ret Frame
on_layout true b f = or_as_is f (reduce_linear b f)
on_layout false b f = on_out b.out b f

abbrev pub has_data : Pixels → Bool
has_data absent = false
has_data _ = true

-- Without EGL pixels: a forced readback and a frame without a mapping fail.
abbrev pub on_cpu : Bool → Bool → Backends → Frame → Ret Frame
on_cpu true mapping b f = err enotsup
on_cpu false false b f = err enotsup
on_cpu false true b f = on_layout (f.modifier == mod_invalid) b f

-- The EGL attempt: only an output buffer that is too small ends the call.
abbrev pub egl_frame : Frame → Frame
egl_frame f = record f { data_at = egl_read; format = xrgb8888; stride = u32 (f.width * 4) }

abbrev pub is_enospc : Errno → Bool
is_enospc enospc = true
is_enospc _ = false

abbrev pub on_egl_error : Bool → Errno → Bool → Backends → Frame → Ret Frame
on_egl_error true e force b f = err e
on_egl_error false e force b f = on_cpu force (has_data f.data_at) b f

abbrev pub on_egl : Ret Bool → Bool → Backends → Frame → Ret Frame
on_egl (ok true) force b f = ok (egl_frame f)
on_egl (ok false) force b f = on_cpu force (has_data f.data_at) b f
on_egl (err e) force b f = on_egl_error (is_enospc e) e force b f

abbrev pub has_fd : Option ℕ → Bool
has_fd none = false
has_fd (some fd) = true

abbrev pub try_egl : Bool → Bool → Backends → Frame → Ret Frame
try_egl true force b f = on_egl b.egl_convert force b f
try_egl false force b f = on_cpu force (has_data f.data_at) b f

-- A linear frame is reduced or left as it is, unless an EGL readback is forced.
abbrev pub on_linear : Bool → Backends → Frame → Ret Frame
on_linear true b f = or_as_is f (reduce_linear b f)
on_linear false b f = ok f

abbrev pub is_linear : Backends → Frame → Bool
is_linear b f = (f.modifier == mod_linear) || ((f.modifier == mod_invalid) && not b.egl_available)

abbrev pub by_linearity : Bool → Bool → Backends → Frame → Ret Frame
by_linearity true force b f = on_linear (has_data f.data_at) b f
by_linearity false force b f = try_egl (has_fd f.dma_buf_fd && b.egl_available) force b f

-- The callers pass frame->data as `data`.
unfoldable pub auto_process : Bool → Backends → Frame → Ret Frame
auto_process force b f =
    if not (has_data f.data_at) && (not force && not (has_fd f.dma_buf_fd))
    then ok f
    else by_linearity (is_linear b f && not force) force b f
