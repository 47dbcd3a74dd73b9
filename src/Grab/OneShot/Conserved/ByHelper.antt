-- ===== src/Grab/OneShot/Conserved/ByHelper.antt =====
-- The same of a frame that the helper sends.
use libdrmtap.Prelude.{
  ℕ, ◌+◌, ◌*◌, ◌<◌, ◌≡◌, ◌==◌, Bool, true, false, Option, none, some, [], ◌∷◌, arith, refl, inl,
  inr, Bool-cases,
}
use libdrmtap.Errno.{Ret, ok, err, eacces, Ret-cases}
use libdrmtap.Grab.Geometry.{validate_fb_dims, validate_fb_size, validate_fb_size-pos}
use libdrmtap.Grab.Output.{Grow, ensure_buf}
use libdrmtap.Grab.Scanout.{scanout_width}
use libdrmtap.Grab.Fast.{mapped, map_at, alloc_priv, free_priv, close_due, null}
use libdrmtap.Grab.Fast.Frame.{Fb2, Frame}
use libdrmtap.Grab.Fast.Import.{start_event}
use libdrmtap.Grab.Fast.Ledger.{
  Resource, descriptor, priv_state, Balanced, fd_weight, total-append, granted, returned,
  close_due-weight,
}
use libdrmtap.Grab.OneShot.{Priv, Info, HelperReply, Ctx, Answers}
use libdrmtap.Grab.OneShot.ByHelper.{
  check_reply, helper_priv, buffer_ptr, received, process_if, map_descriptor, take_pixels, by_kind,
  checked_reply, reply_frame, adopt_reply, on_helper, on_buffer, by_helper,
}
use libdrmtap.Grab.OneShot.Conserved.{
  IsPriv, Accounts, priv_weight, after-Accounts, recount-Accounts, cleanup-Accounts,
  refuse-Accounts, done-Accounts, processed-Accounts,
}
use libdrmtap.Grab.OneShot.Conserved.Direct.{opened-Balanced}

-- A frame that passes the checks has a size.
pub check_reply-sized : (f : Frame) → check_reply f ≡ ok tt → 0 < f.stride * f.height
unfolding check_reply
check_reply-sized f e = elim (Ret-cases (validate_fb_dims 64 f.width f.height)) [
  | inr (x, bad) ↦ absurd (cc (bad, e))
  | inl (u, fine) ↦ elim (Ret-cases (validate_fb_size f.stride f.height)) [
    | inr (x, bad) ↦ absurd (cc (fine, bad, e))
    | inl (v, sized) ↦ validate_fb_size-pos f.stride f.height sized
  ]
]

module _ (w : Resource → ℕ) (a : Answers) (plane : ℕ) (do_mmap : Bool) (i : Info) (c : Ctx) where
  process_if-Accounts :
      (m force : Bool) (frame : Frame) (p : Priv) (c' : Ctx)
      → IsPriv p
      → c'.grab_plane_id ≡ c.grab_plane_id
      → Accounts w
          (priv_weight w (some p))
          i
          c
          plane
          (process_if a plane do_mmap m force frame p c')
  process_if-Accounts false force frame p c' h same =
      done-Accounts w plane i (record { frame = frame; priv = some p }) c c' h
  process_if-Accounts true force frame p c' h same =
      processed-Accounts w (a.process force frame) plane (some p) i c c' h same

  map_descriptor-Accounts :
      (m : Ret ℕ) (fd : ℕ) (virgl : Bool) (frame : Frame) (c' : Ctx)
      → 0 < frame.stride * frame.height
      → c'.grab_plane_id ≡ c.grab_plane_id
      → Accounts w
          (w priv_state + w (descriptor fd))
          i
          c
          plane
          (map_descriptor a plane do_mmap m fd virgl frame c')
  map_descriptor-Accounts (ok p) fd virgl frame c' sized same =
      let size = frame.stride * frame.height in
      let p' : Priv = record (helper_priv (some fd)) {
        mapping = mapped p;
        mapped_size = size;
        used_dumb_map = false;
        sync_started = a.granted;
      } in
      after-Accounts w _ _ (map_at p size ∷ start_event a.granted fd ∷ []) i c plane _
        (omega (arith, opened-Balanced w (w priv_state + w (descriptor fd)) p size fd a.granted))
        (process_if-Accounts do_mmap virgl
          (record frame { data_ptr = mapped p; dma_buf_fd = some fd }) p' c' sized same)
  map_descriptor-Accounts (err e) fd virgl frame c' sized same =
      let frame' : Frame = record frame { data_ptr = null; dma_buf_fd = some fd } in
      recount-Accounts w _ _ i c plane
        (process_if a plane do_mmap do_mmap virgl frame' (helper_priv (some fd)) c') (omega arith)
        (process_if-Accounts do_mmap virgl frame' (helper_priv (some fd)) c' refl same)

  take_pixels-Accounts :
      (size : ℕ) (frame : Frame) (c' : Ctx)
      → c'.grab_plane_id ≡ c.grab_plane_id
      → Accounts w (w priv_state) i c plane (take_pixels a plane do_mmap size frame c')
  take_pixels-Accounts size frame c' same =
      elim (Bool-cases (size == frame.stride * frame.height)) [
        | inr short ↦ rw short (omega arith, (inr refl, same))
        | inl whole ↦ rw whole (
            let frame' : Frame = record frame {
              data_ptr = buffer_ptr c'.pixel_buf.buf;
              dma_buf_fd = none;
            } in
            recount-Accounts w _ _ i c plane
              (process_if a plane do_mmap do_mmap false frame' (helper_priv none) c') (omega arith)
              (process_if-Accounts do_mmap false frame' (helper_priv none) c' refl same))
      ]

  by_kind-Accounts :
      (fd : Option ℕ) (r : HelperReply) (frame : Frame) (c' : Ctx)
      → 0 < frame.stride * frame.height
      → c'.grab_plane_id ≡ c.grab_plane_id
      → Accounts w (w priv_state + fd_weight w fd) i c plane (by_kind a plane do_mmap fd r frame c')
  by_kind-Accounts (some fd) r frame c' sized same =
      map_descriptor-Accounts a.cpu_map fd r.is_virgl frame c' sized same
  by_kind-Accounts none r frame c' sized same =
      recount-Accounts w _ _ i c plane (take_pixels a plane do_mmap r.data_size frame c')
        (omega arith) (take_pixels-Accounts r.data_size frame c' same)

  checked_reply-Accounts :
      (x : Ret (Unit {0})) (r : HelperReply) (frame : Frame) (c' : Ctx)
      → check_reply frame ≡ x
      → c'.grab_plane_id ≡ c.grab_plane_id
      → Accounts w
          (w priv_state + fd_weight w r.dmabuf_fd)
          i
          c
          plane
          (checked_reply a plane do_mmap x r frame c')
  checked_reply-Accounts (err e) r frame c' checked same = (
    omega (
      arith,
      close_due-weight w r.dmabuf_fd,
      total-append (granted w) (close_due r.dmabuf_fd) (free_priv ∷ []),
      total-append (returned w) (close_due r.dmabuf_fd) (free_priv ∷ []),
    ),
    (inr refl, same),
  )
  checked_reply-Accounts (ok _) r frame c' checked same =
      by_kind-Accounts r.dmabuf_fd r frame c' (check_reply-sized frame checked) same

  adopt_reply-Accounts :
      (calloc : Bool) (r : HelperReply) (c' : Ctx)
      → c'.grab_plane_id ≡ c.grab_plane_id
      → Accounts w (fd_weight w r.dmabuf_fd) i c plane (adopt_reply a plane do_mmap calloc r i c')
  adopt_reply-Accounts false r c' same =
      (omega (arith, close_due-weight w r.dmabuf_fd), (inl refl, same))
  adopt_reply-Accounts true r c' same =
      let (width, memo) = scanout_width c'.memo a.mode a.rect r.width r.modifier in
      let frame = reply_frame a plane do_mmap r width in
      after-Accounts w _ (w priv_state + fd_weight w r.dmabuf_fd) (alloc_priv ∷ []) i c plane _
        (omega arith)
        (checked_reply-Accounts (check_reply frame) r frame
          (record c' { memo = memo; cur_hdr_eotf = r.hdr_eotf; cur_hdr_max_nits = r.hdr_max_nits })
          refl same)

  received-Balanced : (fd : Option ℕ) → Balanced w 0 (received fd) (fd_weight w fd)
  received-Balanced none = refl
  received-Balanced (some fd) = omega arith

  on_helper-Accounts :
      (x : Ret HelperReply) (c' : Ctx)
      → c'.grab_plane_id ≡ c.grab_plane_id
      → Accounts w 0 i c plane (on_helper a plane do_mmap x i c')
  on_helper-Accounts (err e) c' same = cleanup-Accounts w none none 0 eacces i i c c' plane same
  on_helper-Accounts (ok r) c' same =
      after-Accounts w _ _ (received r.dmabuf_fd) i c plane _ (received-Balanced r.dmabuf_fd)
        (adopt_reply-Accounts a.calloc r c' same)

  on_buffer-Accounts :
      (g : Ret (Unit {0}) × Grow) (c' : Ctx)
      → c'.grab_plane_id ≡ c.grab_plane_id
      → Accounts w 0 i c plane (on_buffer a plane do_mmap g i c')
  on_buffer-Accounts (err e, g) c' same =
      refuse-Accounts w e i c (record c' { pixel_buf = g }) plane same
  on_buffer-Accounts (ok _, g) c' same =
      on_helper-Accounts a.helper (record c' { pixel_buf = g }) same

  pub by_helper-Accounts :
      (f : Fb2) (c' : Ctx)
      → c'.grab_plane_id ≡ c.grab_plane_id
      → Accounts w 0 i c plane (by_helper a plane do_mmap f i c')
  unfolding by_helper
  by_helper-Accounts f c' same =
      on_buffer-Accounts (ensure_buf a.malloc c'.pixel_buf (f.pitch * f.height)) c' same
