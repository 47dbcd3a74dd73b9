-- ===== src/Grab/OneShot/Direct.antt =====
-- do_grab of src/drm_grab.c after the framebuffer could be exported: the frame is filled and, for
-- drmtap_grab_mapped, mapped and processed.
use libdrmtap.Prelude.{ℕ, ◌*◌, Bool, true, false, Option, none, some, [], ◌∷◌}
use libdrmtap.Errno.{Errno, Ret, ok, err, enomem}
use libdrmtap.Grab.Scanout.{scanout_width}
use libdrmtap.Grab.Fast.{null, failed, mapped, map_at, alloc_priv, is_set}
use libdrmtap.Grab.Fast.Frame.{Fb2, fb2_effective_modifier, Frame}
use libdrmtap.Grab.Fast.Import.{start_event, dumb_mapping}
use libdrmtap.Grab.OneShot.{Priv, Info, Ctx, Answers, Outcome, after, cleanup, done, processed}

-- The reason that a frame without pixels is refused with.
abbrev pub reason : Ret (Unit {0}) → Errno → Errno
reason (ok _) e = e
reason (err e') e = e'

module _ (a : Answers) (plane : ℕ) (f : Fb2) (fb_id fd : ℕ) where
  -- The frame and its private state before it is mapped.
  abbrev pub direct_priv : Priv
  direct_priv = record {
    prime_fd = some fd;
    helper_drm_fd = none;
    mapping = failed;
    mapped_size = 0;
    gem_handle = f.handle;
    used_dumb_map = false;
    sync_started = false;
  }

  abbrev pub direct_frame : ℕ → Frame
  direct_frame width = record {
    data_ptr = null;
    dma_buf_fd = some fd;
    width = width;
    height = f.height;
    stride = f.pitch;
    format = f.pixel_format;
    modifier = fb2_effective_modifier f.modifier;
    fb_id = fb_id;
  }

  abbrev pub mapped_priv : ℕ → Bool → Priv
  mapped_priv p dumb = record direct_priv {
    mapping = mapped p;
    mapped_size = f.pitch * f.height;
    used_dumb_map = dumb;
    sync_started = a.granted;
  }

  -- A mapping: the window is opened, and the frame is processed.
  abbrev pub process_mapped : ℕ → Bool → Frame → Ctx → Outcome
  process_mapped p dumb frame c =
      after (map_at p (f.pitch * f.height) ∷ start_event a.granted fd ∷ []) (
        processed (a.process false (record frame { data_ptr = mapped p })) plane
          (some (mapped_priv p dumb)) c)

  -- No mapping: EGL may still read the descriptor; a frame without pixels is refused.
  abbrev pub or_refused : Bool → Errno → Frame → Ctx → Outcome
  or_refused true e frame c = done plane (record { frame = frame; priv = some direct_priv }) c
  or_refused false e frame c =
      cleanup (some fd) (some f.handle) 0 e (record { frame = frame; priv = some direct_priv }) c

  abbrev pub process_unmapped : Errno → Frame → Ctx → Outcome
  process_unmapped e frame c =
      let (r, frame') = a.process false frame in
      or_refused (is_set frame'.data_ptr) (reason r e) frame' c

  abbrev pub map_or : Option ℕ → Ret ℕ → Frame → Ctx → Outcome
  map_or (some p) m frame c = process_mapped p true frame c
  map_or none (ok p) frame c = process_mapped p false frame c
  map_or none (err e) frame c = process_unmapped e frame c

  abbrev pub map_if : Bool → Frame → Ctx → Outcome
  map_if false frame c = done plane (record { frame = frame; priv = some direct_priv }) c
  map_if true frame c = map_or (dumb_mapping a.virtio a.transfer a.dumb_map) a.cpu_map frame c

  abbrev pub with_priv : Bool → Bool → Info → Ctx → Outcome
  with_priv false do_mmap i c = cleanup (some fd) none f.handle enomem i c
  with_priv true do_mmap i c =
      let (width, memo) =
        scanout_width c.memo a.mode a.rect f.width (fb2_effective_modifier f.modifier) in
      after (alloc_priv ∷ []) (map_if do_mmap (direct_frame width) (record c { memo = memo }))

  unfoldable pub direct : Bool → Info → Ctx → Outcome
  direct do_mmap i c = with_priv a.calloc do_mmap i c
