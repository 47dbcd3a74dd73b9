-- ===== src/Grab/OneShot/ByHelper.antt =====
-- do_grab of src/drm_grab.c where the framebuffer cannot be exported: the helper sends a descriptor
-- or pixels, and what it says of them is checked.
use libdrmtap.Prelude.{
  ℕ, ◌*◌, Bool, true, false, ltb, ◌==◌, if◌then◌else◌, Option, none, some, List, [], ◌∷◌, ◌++◌,
}
use libdrmtap.Errno.{Ret, ok, err, einval, eacces, enomem, eproto, and_then}
use libdrmtap.Grab.Geometry.{validate_fb_dims, validate_fb_size, format_min_bpp}
use libdrmtap.Grab.Output.{Grow, ensure_buf}
use libdrmtap.Grab.Scanout.{scanout_width}
use libdrmtap.Grab.Fast.{
  Mapping, null, failed, mapped, Event, receive_fd, alloc_priv, free_priv, map_at, close_due,
}
use libdrmtap.Grab.Fast.Frame.{Fb2, Frame}
use libdrmtap.Grab.Fast.Import.{start_event}
use libdrmtap.Grab.OneShot.{
  Priv, Info, zero_frame, HelperReply, Ctx, Answers, Outcome, after, refuse, cleanup, done,
  processed,
}

-- The checks on what the helper says of the frame: dimensions, size, and that a row holds its width.
abbrev pub covers : ℕ → ℕ → ℕ → Ret (Unit {0})
covers width stride format =
    if ltb stride (width * format_min_bpp format) then err einval else ok tt

unfoldable pub check_reply : Frame → Ret (Unit {0})
check_reply f =
    and_then (validate_fb_dims 64 f.width f.height)
      (λ _. and_then (validate_fb_size f.stride f.height) (λ _. covers f.width f.stride f.format))

-- The private state of a frame from the helper: its descriptor, if any, and its mapping.
abbrev pub helper_priv : Option ℕ → Priv
helper_priv fd = record {
  prime_fd = fd;
  helper_drm_fd = none;
  mapping = failed;
  mapped_size = 0;
  gem_handle = 0;
  used_dumb_map = true;
  sync_started = false;
}

abbrev pub buffer_ptr : Option ℕ → Mapping
buffer_ptr none = null
buffer_ptr (some p) = mapped p

abbrev pub received : Option ℕ → List Event
received none = []
received (some fd) = receive_fd fd ∷ []

module _ (a : Answers) (plane : ℕ) (do_mmap : Bool) where
  abbrev pub process_if : Bool → Bool → Frame → Priv → Ctx → Outcome
  process_if false force frame p c = done plane (record { frame = frame; priv = some p }) c
  process_if true force frame p c = processed (a.process force frame) plane (some p) c

  -- A descriptor: it is mapped, if that can be, and processed either way.
  abbrev pub map_descriptor : Ret ℕ → ℕ → Bool → Frame → Ctx → Outcome
  map_descriptor (ok p) fd virgl frame c =
      after (map_at p (frame.stride * frame.height) ∷ start_event a.granted fd ∷ []) (
        process_if do_mmap virgl (record frame { data_ptr = mapped p; dma_buf_fd = some fd })
          (record (helper_priv (some fd)) {
            mapping = mapped p;
            mapped_size = frame.stride * frame.height;
            used_dumb_map = false;
            sync_started = a.granted;
          })
          c)
  map_descriptor (err e) fd virgl frame c =
      process_if do_mmap virgl (record frame { data_ptr = null; dma_buf_fd = some fd })
        (helper_priv (some fd)) c

  -- Pixels, which must be one whole frame.
  abbrev pub take_pixels : ℕ → Frame → Ctx → Outcome
  take_pixels size frame c =
      if size == frame.stride * frame.height
      then process_if do_mmap false
          (record frame { data_ptr = buffer_ptr c.pixel_buf.buf; dma_buf_fd = none })
          (helper_priv none) c
      else (free_priv ∷ [], err eproto, record { frame = frame; priv = none }, c)

  abbrev pub by_kind : Option ℕ → HelperReply → Frame → Ctx → Outcome
  by_kind (some fd) r frame c = map_descriptor a.cpu_map fd r.is_virgl frame c
  by_kind none r frame c = take_pixels r.data_size frame c

  abbrev pub checked_reply : Ret (Unit {0}) → HelperReply → Frame → Ctx → Outcome
  checked_reply (err e) r frame c =
      (close_due r.dmabuf_fd ++ (free_priv ∷ []), err e, record { frame = frame; priv = none }, c)
  checked_reply (ok _) r frame c = by_kind r.dmabuf_fd r frame c

  abbrev pub reply_frame : HelperReply → ℕ → Frame
  reply_frame r width = record zero_frame {
    width = width;
    height = r.height;
    stride = r.stride;
    format = r.format;
    modifier = r.modifier;
    fb_id = r.fb_id;
  }

  abbrev pub fill_reply : HelperReply → Ctx → Outcome
  fill_reply r c =
      let (width, memo) = scanout_width c.memo a.mode a.rect r.width r.modifier in
      let frame = reply_frame r width in
      checked_reply (check_reply frame) r frame
        (record c { memo = memo; cur_hdr_eotf = r.hdr_eotf; cur_hdr_max_nits = r.hdr_max_nits })

  abbrev pub adopt_reply : Bool → HelperReply → Info → Ctx → Outcome
  adopt_reply false r i c = (close_due r.dmabuf_fd, err enomem, i, c)
  adopt_reply true r i c = after (alloc_priv ∷ []) (fill_reply r c)

  -- Whatever the helper failed with, the caller lacks the privilege.
  abbrev pub on_helper : Ret HelperReply → Info → Ctx → Outcome
  on_helper (err e) i c = cleanup none none 0 eacces i c
  on_helper (ok r) i c = after (received r.dmabuf_fd) (adopt_reply a.calloc r i c)

  abbrev pub on_buffer : Ret (Unit {0}) × Grow → Info → Ctx → Outcome
  on_buffer (err e, g) i c = refuse e i (record c { pixel_buf = g })
  on_buffer (ok _, g) i c = on_helper a.helper i (record c { pixel_buf = g })

  unfoldable pub by_helper : Fb2 → Info → Ctx → Outcome
  by_helper f i c = on_buffer (ensure_buf a.malloc c.pixel_buf (f.pitch * f.height)) i c
