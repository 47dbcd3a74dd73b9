-- ===== src/Grab/OneShot/Call.antt =====
-- drmtap_grab, drmtap_grab_mapped and drmtap_grab_desc of src/drm_grab.c: do_grab on every exit.
use libdrmtap.Prelude.{
  ℕ, zero, suc, ltb, ◌==◌, Bool, true, false, if◌then◌else◌, Option, none, some, List, [], ◌∷◌,
  ◌++◌,
}
use libdrmtap.Errno.{Errno, Ret, ok, err, enotsup, enodev, eacces, eperm}
use libdrmtap.Grab.Fast.{Event, get_fb2, export_fd, gem_due}
use libdrmtap.Grab.Fast.Frame.{Fb2, Frame}
use libdrmtap.Grab.Fast.Import.{close_auxiliary, staged, check_geometry}
use libdrmtap.Grab.OneShot.{Info, frame_release, Ctx, Answers, Outcome, after, refuse, cleanup}
use libdrmtap.Grab.OneShot.Direct.{direct}
use libdrmtap.Grab.OneShot.ByHelper.{by_helper}

abbrev pub is_denied : Errno → Bool
is_denied eacces = true
is_denied eperm = true
is_denied _ = false

module _ (do_mmap : Bool) (a : Answers) where
  -- An export that is refused for want of privilege gives the handle back and goes to the helper.
  abbrev pub denied_or : Bool → Errno → ℕ → Fb2 → Info → Ctx → Outcome
  denied_or true e plane f i c = after (gem_due f.handle) (by_helper a plane do_mmap f i c)
  denied_or false e plane f i c = cleanup none none f.handle e i c

  abbrev pub on_export : Ret ℕ → ℕ → Fb2 → ℕ → Info → Ctx → Outcome
  on_export (ok fd) plane f fb_id i c =
      after (export_fd fd ∷ []) (direct a plane f fb_id fd do_mmap i c)
  on_export (err e) plane f fb_id i c = denied_or (is_denied e) e plane f i c

  abbrev pub export_or : Bool → ℕ → Fb2 → ℕ → Info → Ctx → Outcome
  export_or true plane f fb_id i c = by_helper a plane do_mmap f i c
  export_or false plane f fb_id i c = on_export a.exported plane f fb_id i c

  abbrev pub on_geometry : Ret (Unit {0}) → ℕ → Fb2 → ℕ → Info → Ctx → Outcome
  on_geometry (err e) plane f fb_id i c = cleanup none none f.handle e i c
  on_geometry (ok _) plane f fb_id i c =
      export_or (f.handle == 0) plane f fb_id i (record c { planes = staged f })

  abbrev pub on_fb2 : Ret Fb2 → ℕ → ℕ → Info → Ctx → Outcome
  on_fb2 (err e) plane fb_id i c = refuse e i c
  on_fb2 (ok f) plane fb_id i c =
      after (get_fb2 f.handle f.aux_handles ∷ close_auxiliary f.handle [] f.aux_handles)
        (on_geometry (check_geometry f) plane f fb_id i c)

  abbrev pub on_plane_fb : Option ℕ → ℕ → Info → Ctx → Outcome
  on_plane_fb none plane i c = refuse enodev i c
  on_plane_fb (some zero) plane i c = refuse enodev i c
  on_plane_fb (some (suc n)) plane i c = on_fb2 a.fb2 plane (suc n) i c

  abbrev pub on_plane : ℕ → Info → Ctx → Outcome
  on_plane zero i c = refuse enodev i c
  on_plane (suc n) i c = on_plane_fb a.plane_fb (suc n) i c

  abbrev pub unless_render_only : Bool → Info → Ctx → Outcome
  unless_render_only true i c = refuse enotsup i c
  unless_render_only false i c =
      on_plane a.primary_plane i (record c { cur_hdr_eotf = a.hdr.0; cur_hdr_max_nits = a.hdr.1 })

  unfoldable pub do_grab : Info → Ctx → Outcome
  do_grab i c = unless_render_only c.is_render_only i c

-- drmtap_dmabuf_desc
pub record Desc : Type 0 where
  pub dma_buf_fd : Option ℕ
  pub width : ℕ
  pub height : ℕ
  pub format : ℕ
  pub modifier : ℕ
  pub fb_id : ℕ
  pub num_planes : ℕ
  pub offsets : List ℕ
  pub pitches : List ℕ
  pub hdr_eotf : ℕ
  pub hdr_max_nits : ℕ

-- At least one plane and at most four; a main pitch of 0 is the frame's stride.
abbrev pub plane_count : ℕ → ℕ
plane_count n = if n == 0 then 1 else if ltb 4 n then 4 else n

abbrev pub main_pitch : List ℕ → ℕ → List ℕ
main_pitch [] stride = []
main_pitch (p ∷ ps) stride = (if p == 0 then stride else p) ∷ ps

abbrev pub describe : Frame → Ctx → Desc
describe f c = record {
  dma_buf_fd = f.dma_buf_fd;
  width = f.width;
  height = f.height;
  format = f.format;
  modifier = f.modifier;
  fb_id = f.fb_id;
  num_planes = plane_count c.planes.num_planes;
  offsets = c.planes.offsets;
  pitches = main_pitch c.planes.pitches f.stride;
  hdr_eotf = c.cur_hdr_eotf;
  hdr_max_nits = c.cur_hdr_max_nits;
}

abbrev pub Described : Type 0
Described = List Event × Ret Desc × Info × Ctx

-- A frame without a descriptor to pass on is released, and names no plane.
abbrev pub transferable : Option ℕ → ℕ → List Event → Info → Ctx → Described
transferable none before es i c =
    let (fs, i') = frame_release i in
    (es ++ fs, err enotsup, i', record c { grab_plane_id = before })
transferable (some fd) before es i c = (es, ok (describe i.frame c), i, c)

abbrev pub described : ℕ → Outcome → Described
described before (es, err e, i, c) = (es, err e, i, c)
described before (es, ok _, i, c) = transferable i.frame.dma_buf_fd before es i c

unfoldable pub grab_desc : Answers → Info → Ctx → Described
grab_desc a i c = described c.grab_plane_id (do_grab false a i c)
