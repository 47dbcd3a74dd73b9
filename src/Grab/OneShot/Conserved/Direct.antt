-- ===== src/Grab/OneShot/Conserved/Direct.antt =====
-- The same after the framebuffer was exported.
use libdrmtap.Prelude.{
  ℕ, ◌+◌, ◌*◌, ◌<◌, ◌≡◌, Bool, true, false, Option, none, some, [], ◌∷◌, arith, refl,
}
use libdrmtap.Errno.{Errno, Ret, ok, err, enomem}
use libdrmtap.Grab.Scanout.{scanout_width}
use libdrmtap.Grab.Fast.{mapped, map_at, alloc_priv, is_set}
use libdrmtap.Grab.Fast.Frame.{Fb2, Frame, fb2_effective_modifier}
use libdrmtap.Grab.Fast.Import.{start_event, dumb_mapping}
use libdrmtap.Grab.Fast.Ledger.{
  Resource, descriptor, mapping, priv_state, Balanced, gem_weight, window_weight,
}
use libdrmtap.Grab.OneShot.{Info, Ctx, Answers, cleanup, done}
use libdrmtap.Grab.OneShot.Direct.{
  reason, direct_priv, direct_frame, mapped_priv, process_mapped, or_refused, map_or, map_if,
  with_priv, direct,
}
use libdrmtap.Grab.OneShot.Conserved.{
  Accounts, after-Accounts, recount-Accounts, cleanup-Accounts, done-Accounts, processed-Accounts,
}

-- A START and a mapping.
pub opened-Balanced :
    (w : Resource → ℕ) (n p size fd : ℕ) (granted : Bool)
    → Balanced w n
        (map_at p size ∷ start_event granted fd ∷ [])
        (n + w (mapping p size) + window_weight w granted (some fd))
opened-Balanced w n p size fd true = omega arith
opened-Balanced w n p size fd false = omega arith

module _ (w : Resource → ℕ) (a : Answers) (plane : ℕ) (f : Fb2) (fb_id fd : ℕ) (i : Info) (c : Ctx)
    (sized : 0 < f.pitch * f.height) where
  -- What is held once the private state is there.
  abbrev hand : ℕ
  hand = w priv_state + gem_weight w f.handle + w (descriptor fd)

  process_mapped-Accounts :
      (p : ℕ) (dumb : Bool) (frame : Frame) (c' : Ctx)
      → c'.grab_plane_id ≡ c.grab_plane_id
      → Accounts w hand i c plane (process_mapped a plane f fb_id fd p dumb frame c')
  process_mapped-Accounts p dumb frame c' same =
      let held =
        processed-Accounts w (a.process false (record frame { data_ptr = mapped p })) plane
          (some (mapped_priv a plane f fb_id fd p dumb)) i c c' sized same in
      after-Accounts w hand _ (map_at p (f.pitch * f.height) ∷ start_event a.granted fd ∷ []) i c
        plane _ (omega (arith, opened-Balanced w hand p (f.pitch * f.height) fd a.granted)) held

  or_refused-Accounts :
      (readable : Bool) (e : Errno) (frame : Frame) (c' : Ctx)
      → c'.grab_plane_id ≡ c.grab_plane_id
      → Accounts w hand i c plane (or_refused a plane f fb_id fd readable e frame c')
  or_refused-Accounts true e frame c' same =
      let i' : Info = record { frame = frame; priv = some (direct_priv a plane f fb_id fd) } in
      recount-Accounts w hand _ i c plane (done plane i' c') (omega arith)
        (done-Accounts w plane i i' c c' refl)
  or_refused-Accounts false e frame c' same =
      let i' : Info = record { frame = frame; priv = some (direct_priv a plane f fb_id fd) } in
      recount-Accounts w hand _ i c plane (cleanup (some fd) (some f.handle) 0 e i' c')
        (omega arith) (cleanup-Accounts w (some fd) (some f.handle) 0 e i i' c c' plane same)

  map_or-Accounts :
      (m : Option ℕ) (r : Ret ℕ) (frame : Frame) (c' : Ctx)
      → c'.grab_plane_id ≡ c.grab_plane_id
      → Accounts w hand i c plane (map_or a plane f fb_id fd m r frame c')
  map_or-Accounts (some p) r frame c' same = process_mapped-Accounts p true frame c' same
  map_or-Accounts none (ok p) frame c' same = process_mapped-Accounts p false frame c' same
  map_or-Accounts none (err e) frame c' same =
      let (r, frame') = a.process false frame in
      or_refused-Accounts (is_set frame'.data_ptr) (reason r e) frame' c' same

  map_if-Accounts :
      (do_mmap : Bool) (frame : Frame) (c' : Ctx)
      → c'.grab_plane_id ≡ c.grab_plane_id
      → Accounts w hand i c plane (map_if a plane f fb_id fd do_mmap frame c')
  map_if-Accounts false frame c' same = or_refused-Accounts true enomem frame c' same
  map_if-Accounts true frame c' same =
      map_or-Accounts (dumb_mapping a.virtio a.transfer a.dumb_map) a.cpu_map frame c' same

  with_priv-Accounts :
      (calloc do_mmap : Bool) (c' : Ctx)
      → c'.grab_plane_id ≡ c.grab_plane_id
      → Accounts w
          (gem_weight w f.handle + w (descriptor fd))
          i
          c
          plane
          (with_priv a plane f fb_id fd calloc do_mmap i c')
  with_priv-Accounts false do_mmap c' same =
      recount-Accounts w _ _ i c plane (cleanup (some fd) none f.handle enomem i c') (omega arith)
        (cleanup-Accounts w (some fd) none f.handle enomem i i c c' plane same)
  with_priv-Accounts true do_mmap c' same =
      let (width, memo) =
        scanout_width c'.memo a.mode a.rect f.width (fb2_effective_modifier f.modifier) in
      after-Accounts w _ hand (alloc_priv ∷ []) i c plane _ (omega arith) (
        map_if-Accounts do_mmap (direct_frame a plane f fb_id fd width) (record c' { memo = memo })
          same)

  pub direct-Accounts :
      (do_mmap : Bool) (c' : Ctx)
      → c'.grab_plane_id ≡ c.grab_plane_id
      → Accounts w
          (gem_weight w f.handle + w (descriptor fd))
          i
          c
          plane
          (direct a plane f fb_id fd do_mmap i c')
  unfolding direct
  direct-Accounts do_mmap c' same = with_priv-Accounts a.calloc do_mmap c' same
