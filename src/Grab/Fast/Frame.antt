-- ===== src/Grab/Fast/Frame.antt =====
-- The types of drmtap_grab_mapped_fast in src/drm_grab.c, and a frame from a cached slot.
use libdrmtap.Prelude.{ℕ, Bool, true, false, Option, none, some, List, [], ◌++◌, get_elem?}
use libdrmtap.Errno.{Ret, ok, err}
use libdrmtap.Pixel.Tiling.{mod_invalid}
use libdrmtap.Grab.Scanout.{PlaneRect, Mode, Memo}
use libdrmtap.Grab.Fast.{
  Mapping, Slot, empty_slot, Event, fast_sync_close, fast_sync_begin, fast_cleanup, Planes,
  fast_slot_restage_planes,
}

-- drmModeFB2: the handle of plane 0 and those of planes 1 to 3. A modifier counts if its flag is set.
pub record Fb2 : Type 0 where
  pub handle : ℕ
  pub aux_handles : List ℕ
  pub width : ℕ
  pub height : ℕ
  pub pixel_format : ℕ
  pub modifier : Option ℕ
  pub pitch : ℕ
  pub aux_pitches : List ℕ
  pub offsets : List ℕ

abbrev pub fb2_effective_modifier : Option ℕ → ℕ
fb2_effective_modifier none = mod_invalid
fb2_effective_modifier (some m) = m

pub record Frame : Type 0 where
  pub data_ptr : Mapping
  pub dma_buf_fd : Option ℕ
  pub width : ℕ
  pub height : ℕ
  pub stride : ℕ
  pub format : ℕ
  pub modifier : ℕ
  pub fb_id : ℕ

-- What the kernel, the GPU and the rest of the library answer during one call. `process` is
-- gpu_auto_process, `granted` a SYNC_START, `forced` the test hook that drops a mapping.
pub record Answers : Type 0 where
  pub primary_plane : ℕ
  pub plane_fb : Option ℕ
  pub virtio : Bool
  pub transfer : Ret (Unit {0})
  pub fb2 : Ret Fb2
  pub exported : Ret ℕ
  pub granted : Bool
  pub dumb_map : Option ℕ
  pub cpu_map : Option ℕ
  pub forced : Bool
  pub egl : Bool
  pub mode : Option Mode
  pub rect : PlaneRect
  pub process : Frame → Ret Frame

-- The part of drmtap_ctx that the fast path uses.
pub record FastCtx : Type 0 where
  pub is_render_only : Bool
  pub slots : List Slot
  pub fast_plane_id : ℕ
  pub fast_last_fb_id : ℕ
  pub fast_initialized : Bool
  pub fast_no_cpu_map : Bool
  pub fast_no_privilege : Bool
  pub grab_plane_id : ℕ
  pub planes : Planes
  pub memo : Memo

-- The system calls of a call, its result and the context after it.
abbrev pub Outcome : Type 0
Outcome = List Event × Ret Frame × FastCtx

abbrev pub after : List Event → Outcome → Outcome
after es (fs, r, c) = (es ++ fs, r, c)

-- drmtap_fast_cleanup.
unfoldable pub cleanup_ctx : FastCtx → List Event × FastCtx
cleanup_ctx c =
    let (es, ss) = fast_cleanup c.slots in
    (
      es,
      record c {
        slots = ss;
        fast_plane_id = 0;
        fast_last_fb_id = 0;
        fast_initialized = false;
        fast_no_cpu_map = false;
      },
    )

-- A frame that came from the plane is delivered once it has been processed.
abbrev pub delivered : Ret Frame → FastCtx → Outcome
delivered (ok f) c = ([], ok f, record c { grab_plane_id = c.fast_plane_id })
delivered (err e) c = ([], err e, c)

unfoldable pub deliver : Answers → Frame → FastCtx → Outcome
deliver a frame c = delivered (a.process frame) c

abbrev pub slot_frame : Slot → Frame
slot_frame s = record {
  data_ptr = s.mmap_ptr;
  dma_buf_fd = s.prime_fd;
  width = s.width;
  height = s.height;
  stride = s.stride;
  format = s.format;
  modifier = s.modifier;
  fb_id = s.fb_id;
}

abbrev pub slot_at : ℕ → List Slot → Slot
slot_at i ss = elim (get_elem? ss i) [ none ↦ empty_slot | some s ↦ s ]

-- A frame from slot `i`: the last step of both cached paths, which differ only in that the one
-- for an unchanged fb_id need not store it again.
abbrev pub resync : Bool → Bool → ℕ → List Slot → List Event × List Slot
resync true granted i ss = fast_sync_close ss
resync false granted i ss = fast_sync_begin granted i ss

unfoldable pub serve : Answers → ℕ → ℕ → FastCtx → Outcome
serve a i fb_id c =
    let synced = resync a.virtio a.granted i c.slots in
    let s = slot_at i c.slots in
    after synced.0 (
      deliver a (slot_frame s) (record c {
        slots = synced.1;
        fast_last_fb_id = fb_id;
        planes = fast_slot_restage_planes s;
      }))

-- On virtio the transfer comes first, and its failure ends the call.
abbrev pub hit_after : Bool → Ret (Unit {0}) → Answers → ℕ → ℕ → FastCtx → Outcome
hit_after false t a i fb_id c = serve a i fb_id c
hit_after true (ok _) a i fb_id c = serve a i fb_id c
hit_after true (err e) a i fb_id c = ([], err e, c)

unfoldable pub hit : Answers → ℕ → ℕ → FastCtx → Outcome
hit a i fb_id c = hit_after a.virtio a.transfer a i fb_id c
