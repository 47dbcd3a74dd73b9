-- ===== src/Grab/OneShot.antt =====
-- The frame of a one-shot grab in src/drm_grab.c: what it owns, and drmtap_frame_release.
pub mod Direct
pub mod ByHelper
pub mod Call
pub mod Conserved
pub mod Pixels
use libdrmtap.Prelude.{
  ℕ, ◌==◌, Bool, true, false, if◌then◌else◌, Option, none, some, List, [], ◌∷◌, ◌++◌,
}
use libdrmtap.Errno.{Errno, Ret, ok, err}
use libdrmtap.Grab.Output.{Grow}
use libdrmtap.Grab.Scanout.{PlaneRect, Mode, Memo}
use libdrmtap.Grab.Fast.{
  Mapping, null, failed, mapped, Event, unmap, free_priv, end_due, close_due, gem_due, Planes,
}
use libdrmtap.Grab.Fast.Frame.{Fb2, Frame}

-- frame_priv_t, without is_heap_buf, which nothing sets. `failed` is MAP_FAILED.
pub record Priv : Type 0 where
  pub prime_fd : Option ℕ
  pub helper_drm_fd : Option ℕ
  pub mapping : Mapping
  pub mapped_size : ℕ
  pub gem_handle : ℕ
  pub used_dumb_map : Bool
  pub sync_started : Bool

-- drmtap_frame_info; `priv` is `_priv`.
pub record Info : Type 0 where
  pub frame : Frame
  pub priv : Option Priv

-- memset to 0: descriptor 0, as far as the number goes.
abbrev pub zero_frame : Frame
zero_frame = record {
  data_ptr = null;
  dma_buf_fd = some 0;
  width = 0;
  height = 0;
  stride = 0;
  format = 0;
  modifier = 0;
  fb_id = 0;
}

-- The mapping, after the END that its window owes; one of size 0 is left alone.
abbrev pub unmap_priv : Mapping → Priv → List Event
unmap_priv null p = []
unmap_priv failed p = []
unmap_priv (mapped q) p =
    if p.mapped_size == 0
    then []
    else end_due p.sync_started p.prime_fd ++ (unmap q p.mapped_size ∷ [])

abbrev pub release_priv : Option Priv → List Event
release_priv none = []
release_priv (some p) =
    unmap_priv p.mapping p
    ++ (close_due p.prime_fd
        ++ (close_due p.helper_drm_fd ++ (gem_due p.gem_handle ++ (free_priv ∷ []))))

unfoldable pub frame_release : Info → List Event × Info
frame_release i =
    (release_priv i.priv, record { frame = record zero_frame { dma_buf_fd = none }; priv = none })

-- drmtap_frame_owns_data: the pixels lie in the frame's own mapping.
abbrev pub same_address : Mapping → Mapping → Bool
same_address (mapped p) (mapped q) = p == q
same_address (mapped p) _ = false
same_address failed failed = true
same_address failed _ = false
same_address null _ = false

abbrev owns_as : Option Priv → Mapping → Bool
owns_as none q = false
owns_as (some p) q = same_address q p.mapping

unfoldable pub frame_owns_data : Info → Bool
frame_owns_data i = owns_as i.priv i.frame.data_ptr

-- The part of drmtap_ctx that a one-shot grab uses.
pub record Ctx : Type 0 where
  pub is_render_only : Bool
  pub grab_plane_id : ℕ
  pub planes : Planes
  pub memo : Memo
  pub pixel_buf : Grow
  pub cur_hdr_eotf : ℕ
  pub cur_hdr_max_nits : ℕ

-- helper_grab_result_t of a request that succeeded.
pub record HelperReply : Type 0 where
  pub width : ℕ
  pub height : ℕ
  pub stride : ℕ
  pub format : ℕ
  pub modifier : ℕ
  pub fb_id : ℕ
  pub data_size : ℕ
  pub is_virgl : Bool
  pub hdr_eotf : ℕ
  pub hdr_max_nits : ℕ
  pub dmabuf_fd : Option ℕ

-- What the kernel and the rest of the library answer during one grab. `process` is
-- gpu_auto_process on the frame, forced to EGL or not: it may change the frame and fail.
pub record Answers : Type 0 where
  pub primary_plane : ℕ
  pub hdr : ℕ × ℕ
  pub plane_fb : Option ℕ
  pub fb2 : Ret Fb2
  pub exported : Ret ℕ
  pub malloc : Bool
  pub helper : Ret HelperReply
  pub calloc : Bool
  pub mode : Option Mode
  pub rect : PlaneRect
  pub virtio : Bool
  pub transfer : Ret (Unit {0})
  pub dumb_map : Option ℕ
  pub cpu_map : Ret ℕ
  pub granted : Bool
  pub process : Bool → Frame → Ret (Unit {0}) × Frame

-- The system calls of a grab, its result, the frame and the context after it.
abbrev pub Outcome : Type 0
Outcome = List Event × Ret (Unit {0}) × Info × Ctx

abbrev pub after : List Event → Outcome → Outcome
after es (fs, r, i, c) = (es ++ fs, r, i, c)

abbrev pub refuse : Errno → Info → Ctx → Outcome
refuse e i c = ([], err e, i, c)

-- The label `cleanup`: the exported descriptor, the handle that the private state or the function
-- itself still holds, and the private state.
abbrev pub cleanup_events : Option ℕ → Option ℕ → ℕ → List Event
cleanup_events fd none pending = close_due fd ++ gem_due pending
cleanup_events fd (some h) pending = close_due fd ++ (gem_due h ++ (free_priv ∷ []))

abbrev pub cleanup : Option ℕ → Option ℕ → ℕ → Errno → Info → Ctx → Outcome
cleanup fd priv_handle pending e i c = (
  cleanup_events fd priv_handle pending,
  err e,
  record { frame = record i.frame { dma_buf_fd = none }; priv = none },
  c,
)

-- Only a grab that succeeds names its plane.
abbrev pub done : ℕ → Info → Ctx → Outcome
done plane i c = ([], ok tt, i, record c { grab_plane_id = plane })

-- A frame that could not be processed is released.
abbrev pub processed : Ret (Unit {0}) × Frame → ℕ → Option Priv → Ctx → Outcome
processed (ok _, f) plane p c = done plane (record { frame = f; priv = p }) c
processed (err e, f) plane p c =
    let (es, i) = frame_release (record { frame = f; priv = p }) in (es, err e, i, c)
