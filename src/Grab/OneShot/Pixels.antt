-- ===== src/Grab/OneShot/Pixels.antt =====
-- drmtap_grab_mapped of src/drm_grab.c: whether a grab that succeeds has pixels.
use libdrmtap.Prelude.{
  ℕ, zero, suc, ◌*◌, ◌≡◌, ◌⊎◌, ◌==◌, Bool, true, false, Option, none, some, refl, sym, ap, subst,
  inl, inr, Bool-cases,
}
use libdrmtap.Errno.{Errno, Ret, ok, err}
use libdrmtap.Grab.Output.{Grow, ensure_buf}
use libdrmtap.Grab.Output.Owned.{ensure_buf-HasBuf}
use libdrmtap.Grab.Scanout.{scanout_width}
use libdrmtap.Grab.Fast.{null, mapped, is_set}
use libdrmtap.Grab.Fast.Frame.{Fb2, Frame, fb2_effective_modifier}
use libdrmtap.Grab.Fast.Import.{staged, check_geometry, dumb_mapping}
use libdrmtap.Grab.OneShot.{Priv, Info, HelperReply, Ctx, Answers, Outcome, processed}
use libdrmtap.Grab.OneShot.Direct.{reason, direct_frame, or_refused, map_or, with_priv, direct}
use libdrmtap.Grab.OneShot.ByHelper.{
  check_reply, buffer_ptr, map_descriptor, take_pixels, by_kind, checked_reply, reply_frame,
  adopt_reply, on_helper, on_buffer, by_helper,
}
use libdrmtap.Grab.OneShot.Call.{
  is_denied, denied_or, on_export, export_or, on_geometry, on_fb2, on_plane_fb, on_plane,
  unless_render_only, do_grab,
}

-- gpu_auto_process never takes the pixels away from a frame that has some.
abbrev pub KeepsData : (Bool → Frame → Ret (Unit {0}) × Frame) → Type 0
KeepsData process =
    (force : Bool) (f : Frame)
    → (process force f).0 ≡ ok tt
    → is_set f.data_ptr ≡ true
    → is_set (process force f).1.data_ptr ≡ true

-- The helper sent a descriptor, and it cannot be mapped.
abbrev pub CannotMap : Ret ℕ → Type 0
CannotMap (ok p) = ⊥
CannotMap (err e) = Unit

abbrev pub SentFd : Ret HelperReply → Type 0
SentFd (err e) = ⊥
SentFd (ok r) = (fd : ℕ) × (r.dmabuf_fd ≡ some fd)

abbrev pub Unmapped : Answers → Type 0
Unmapped a = SentFd a.helper × CannotMap a.cpu_map

abbrev pub PixelsAs : Answers → Ret (Unit {0}) → Info → Type 0
PixelsAs a (ok _) i = (is_set i.frame.data_ptr ≡ true) ⊎ Unmapped a
PixelsAs a (err e) i = Unit

abbrev pub HasPixels : Answers → Outcome → Type 0
HasPixels a o = PixelsAs a o.1 o.2

-- The receive buffer is there once drmtap_ensure_buf has succeeded.
ensure_buf-set :
    (malloc : Bool) (g : Grow) (size : ℕ)
    → (ensure_buf malloc g size).0 ≡ ok tt
    → is_set (buffer_ptr (ensure_buf malloc g size).1.buf) ≡ true
ensure_buf-set malloc g size e =
    let (p, there) = ensure_buf-HasBuf malloc g.heap g.buf g.cap size e in
    ap (λ b. is_set (buffer_ptr b)) there

module _ (a : Answers) (keeps : KeepsData a.process) (i : Info) where
  processed-HasPixels :
      (r : Ret (Unit {0}) × Frame) (plane : ℕ) (p : Option Priv) (c : Ctx)
      → (r.0 ≡ ok tt → (is_set r.1.data_ptr ≡ true) ⊎ Unmapped a)
      → HasPixels a (processed r plane p c)
  processed-HasPixels (ok _, f) plane p c h = h refl
  processed-HasPixels (err e, f) plane p c h = tt

  -- A frame with data is processed.
  kept-HasPixels :
      (force : Bool) (f : Frame) (plane : ℕ) (p : Option Priv) (c : Ctx)
      → is_set f.data_ptr ≡ true
      → HasPixels a (processed (a.process force f) plane p c)
  kept-HasPixels force f plane p c has =
      processed-HasPixels (a.process force f) plane p c (λ e. inl (keeps force f e has))

  module _ (plane : ℕ) (f : Fb2) (fb_id fd : ℕ) where
    or_refused-HasPixels :
        (readable : Bool) (e : Errno) (frame : Frame) (c : Ctx)
        → is_set frame.data_ptr ≡ readable
        → HasPixels a (or_refused a plane f fb_id fd readable e frame c)
    or_refused-HasPixels true e frame c has = inl has
    or_refused-HasPixels false e frame c has = tt

    map_or-HasPixels :
        (m : Option ℕ) (r : Ret ℕ) (frame : Frame) (c : Ctx)
        → HasPixels a (map_or a plane f fb_id fd m r frame c)
    map_or-HasPixels (some p) r frame c =
        kept-HasPixels false (record frame { data_ptr = mapped p }) plane _ c refl
    map_or-HasPixels none (ok p) frame c =
        kept-HasPixels false (record frame { data_ptr = mapped p }) plane _ c refl
    map_or-HasPixels none (err e) frame c =
        let (r, frame') = a.process false frame in
        or_refused-HasPixels (is_set frame'.data_ptr) (reason r e) frame' c refl

    with_priv-HasPixels :
        (calloc : Bool) (c : Ctx) → HasPixels a (with_priv a plane f fb_id fd calloc true i c)
    with_priv-HasPixels false c = tt
    with_priv-HasPixels true c =
        let (width, memo) =
          scanout_width c.memo a.mode a.rect f.width (fb2_effective_modifier f.modifier) in
        map_or-HasPixels (dumb_mapping a.virtio a.transfer a.dumb_map) a.cpu_map
          (direct_frame a plane f fb_id fd width) (record c { memo = memo })

    direct-HasPixels : (c : Ctx) → HasPixels a (direct a plane f fb_id fd true i c)
    unfolding direct
    direct-HasPixels c = with_priv-HasPixels a.calloc c

  module _ (plane : ℕ) where
    map_descriptor-HasPixels :
        (m : Ret ℕ) (fd : ℕ) (virgl : Bool) (frame : Frame) (c : Ctx)
        → (CannotMap m → Unmapped a)
        → HasPixels a (map_descriptor a plane true m fd virgl frame c)
    map_descriptor-HasPixels (ok p) fd virgl frame c u =
        kept-HasPixels virgl (record frame { data_ptr = mapped p; dma_buf_fd = some fd }) plane _ c
          refl
    map_descriptor-HasPixels (err e) fd virgl frame c u =
        processed-HasPixels
          (a.process virgl (record frame { data_ptr = null; dma_buf_fd = some fd })) plane _ c
          (λ _. inr (u tt))

    take_pixels-HasPixels :
        (size : ℕ) (frame : Frame) (c : Ctx)
        → is_set (buffer_ptr c.pixel_buf.buf) ≡ true
        → HasPixels a (take_pixels a plane true size frame c)
    take_pixels-HasPixels size frame c has =
        elim (Bool-cases (size == frame.stride * frame.height)) [
          | inr short ↦ rw short tt
          | inl whole ↦ rw whole (
              kept-HasPixels false
                (record frame { data_ptr = buffer_ptr c.pixel_buf.buf; dma_buf_fd = none }) plane _
                c has)
        ]

    by_kind-HasPixels :
        (fd : Option ℕ) (r : HelperReply) (frame : Frame) (c : Ctx)
        → r.dmabuf_fd ≡ fd
        → a.helper ≡ ok r
        → is_set (buffer_ptr c.pixel_buf.buf) ≡ true
        → HasPixels a (by_kind a plane true fd r frame c)
    by_kind-HasPixels (some fd) r frame c e sent has =
        map_descriptor-HasPixels a.cpu_map fd r.is_virgl frame c
          (λ u. (subst SentFd (sym sent) (fd, e), u))
    by_kind-HasPixels none r frame c e sent has = take_pixels-HasPixels r.data_size frame c has

    checked_reply-HasPixels :
        (x : Ret (Unit {0})) (r : HelperReply) (frame : Frame) (c : Ctx)
        → a.helper ≡ ok r
        → is_set (buffer_ptr c.pixel_buf.buf) ≡ true
        → HasPixels a (checked_reply a plane true x r frame c)
    checked_reply-HasPixels (err e) r frame c sent has = tt
    checked_reply-HasPixels (ok _) r frame c sent has =
        by_kind-HasPixels r.dmabuf_fd r frame c refl sent has

    adopt_reply-HasPixels :
        (calloc : Bool) (r : HelperReply) (c : Ctx)
        → a.helper ≡ ok r
        → is_set (buffer_ptr c.pixel_buf.buf) ≡ true
        → HasPixels a (adopt_reply a plane true calloc r i c)
    adopt_reply-HasPixels false r c sent has = tt
    adopt_reply-HasPixels true r c sent has =
        let (width, memo) = scanout_width c.memo a.mode a.rect r.width r.modifier in
        let frame = reply_frame a plane true r width in
        checked_reply-HasPixels (check_reply frame) r frame
          (record c { memo = memo; cur_hdr_eotf = r.hdr_eotf; cur_hdr_max_nits = r.hdr_max_nits })
          sent has

    on_helper-HasPixels :
        (x : Ret HelperReply) (c : Ctx)
        → a.helper ≡ x
        → is_set (buffer_ptr c.pixel_buf.buf) ≡ true
        → HasPixels a (on_helper a plane true x i c)
    on_helper-HasPixels (err e) c sent has = tt
    on_helper-HasPixels (ok r) c sent has = adopt_reply-HasPixels a.calloc r c sent has

    on_buffer-HasPixels :
        (g : Ret (Unit {0}) × Grow) (c : Ctx)
        → (g.0 ≡ ok tt → is_set (buffer_ptr g.1.buf) ≡ true)
        → HasPixels a (on_buffer a plane true g i c)
    on_buffer-HasPixels (err e, g) c has = tt
    on_buffer-HasPixels (ok _, g) c has =
        on_helper-HasPixels a.helper (record c { pixel_buf = g }) refl (has refl)

    by_helper-HasPixels : (f : Fb2) (c : Ctx) → HasPixels a (by_helper a plane true f i c)
    unfolding by_helper
    by_helper-HasPixels f c =
        on_buffer-HasPixels (ensure_buf a.malloc c.pixel_buf (f.pitch * f.height)) c
          (ensure_buf-set a.malloc c.pixel_buf (f.pitch * f.height))

    module _ (f : Fb2) (fb_id : ℕ) where
      on_export-HasPixels :
          (r : Ret ℕ) (c : Ctx) → HasPixels a (on_export true a r plane f fb_id i c)
      on_export-HasPixels (ok fd) c = direct-HasPixels plane f fb_id fd c
      on_export-HasPixels (err e) c = denied (is_denied e)
        where
          denied : (d : Bool) → HasPixels a (denied_or true a d e plane f i c)
          denied true = by_helper-HasPixels f c
          denied false = tt

      export_or-HasPixels :
          (bare : Bool) (c : Ctx) → HasPixels a (export_or true a bare plane f fb_id i c)
      export_or-HasPixels true c = by_helper-HasPixels f c
      export_or-HasPixels false c = on_export-HasPixels a.exported c

      on_geometry-HasPixels :
          (r : Ret (Unit {0})) (c : Ctx) → HasPixels a (on_geometry true a r plane f fb_id i c)
      on_geometry-HasPixels (err e) c = tt
      on_geometry-HasPixels (ok _) c =
          export_or-HasPixels (f.handle == 0) (record c { planes = staged f })

  on_fb2-HasPixels :
      (r : Ret Fb2) (plane fb_id : ℕ) (c : Ctx) → HasPixels a (on_fb2 true a r plane fb_id i c)
  on_fb2-HasPixels (err e) plane fb_id c = tt
  on_fb2-HasPixels (ok f) plane fb_id c = on_geometry-HasPixels plane f fb_id (check_geometry f) c

  on_plane_fb-HasPixels :
      (fb : Option ℕ) (plane : ℕ) (c : Ctx) → HasPixels a (on_plane_fb true a fb plane i c)
  on_plane_fb-HasPixels none plane c = tt
  on_plane_fb-HasPixels (some zero) plane c = tt
  on_plane_fb-HasPixels (some (suc n)) plane c = on_fb2-HasPixels a.fb2 plane (suc n) c

  on_plane-HasPixels : (plane : ℕ) (c : Ctx) → HasPixels a (on_plane true a plane i c)
  on_plane-HasPixels zero c = tt
  on_plane-HasPixels (suc n) c = on_plane_fb-HasPixels a.plane_fb (suc n) c

  -- A mapped grab that succeeds has pixels, given that gpu_auto_process never takes them away, unless
  -- the helper sent a descriptor that cannot be mapped; there alone the pixels are not asked for.
  pub grab_mapped-HasPixels : (c : Ctx) → HasPixels a (do_grab true a i c)
  unfolding do_grab
  grab_mapped-HasPixels c = unless (c.is_render_only)
    where
      unless : (b : Bool) → HasPixels a (unless_render_only true a b i c)
      unless true = tt
      unless false =
          on_plane-HasPixels a.primary_plane
            (record c { cur_hdr_eotf = a.hdr.0; cur_hdr_max_nits = a.hdr.1 })
