-- ===== src/Tests/OneShot.antt =====
-- One-shot grabs of src/drm_grab.c on small inputs.
use libdrmtap.Prelude.{◌≡◌, refl, some, none, true, false, [], ◌∷◌}
use libdrmtap.Errno.{ok, err, eacces, einval}
use libdrmtap.Grab.Geometry.{validate_fb_dims, validate_fb_size, format_min_bpp}
use libdrmtap.Grab.Output.{ensure_buf}
use libdrmtap.Grab.Scanout.{zero_rect, scanout_width}
use libdrmtap.Grab.Fast.Import.{close_auxiliary}
use libdrmtap.Grab.Fast.{
  get_fb2, export_fd, alloc_priv, map_at, sync_start, sync_end, unmap, close_fd, gem_close,
  free_priv, null,
}
use libdrmtap.Grab.OneShot.{Info, Ctx, HelperReply, Answers, zero_frame, frame_release}
use libdrmtap.Grab.OneShot.Direct.{direct}
use libdrmtap.Grab.OneShot.ByHelper.{by_helper, check_reply}
use libdrmtap.Grab.OneShot.Call.{do_grab}
use libdrmtap.Grab.OneShot.Conserved.{Accounts}
use libdrmtap.Grab.OneShot.Conserved.Call.{grab_and_release, do_grab-Accounts}
use libdrmtap.Grab.OneShot.Pixels.{HasPixels, grab_mapped-HasPixels}
use libdrmtap.Tests.Base.{weights, no_memo, no_buffer, padded_fb}

abbrev privileged : Answers
privileged = record {
  primary_plane = 31;
  hdr = (0, 0);
  plane_fb = some 7;
  fb2 = ok padded_fb;
  exported = ok 3;
  malloc = true;
  helper = err eacces;
  calloc = true;
  mode = none;
  rect = zero_rect;
  virtio = false;
  transfer = err einval;
  dumb_map = none;
  cpu_map = ok 4096;
  granted = true;
  process = λ force f. (ok tt, f);
}

-- The export is denied, and the helper sends a descriptor.
abbrev from_helper : HelperReply
from_helper = record {
  width = 64;
  height = 32;
  stride = 320;
  format = 0x34325258;
  modifier = 0;
  fb_id = 7;
  data_size = 0;
  is_virgl = false;
  hdr_eotf = 0;
  hdr_max_nits = 0;
  dmabuf_fd = some 9;
}

abbrev unprivileged : Answers
unprivileged = record privileged { exported = err eacces; helper = ok from_helper }

abbrev ctx : Ctx
ctx = record {
  is_render_only = false;
  grab_plane_id = 0;
  planes = record { num_planes = 0; pitches = []; offsets = [] };
  memo = no_memo;
  pixel_buf = no_buffer;
  cur_hdr_eotf = 0;
  cur_hdr_max_nits = 0;
}

abbrev empty : Info
empty = record { frame = zero_frame; priv = none }

do_grab-Accounts_example : Accounts weights 0 empty ctx 31 (do_grab true unprivileged empty ctx)
do_grab-Accounts_example = do_grab-Accounts weights true unprivileged empty ctx

grab_mapped-HasPixels_example : HasPixels privileged (do_grab true privileged empty ctx)
grab_mapped-HasPixels_example = grab_mapped-HasPixels privileged (λ force f done has. has) empty ctx

-- The order of what is given back: the window, the mapping, the descriptor, the handle.
released_in_order :
    grab_and_release true privileged empty ctx
    ≡ get_fb2 5 []
      ∷ export_fd 3
      ∷ alloc_priv
      ∷ map_at 4096 10240
      ∷ sync_start 3
      ∷ sync_end 3
      ∷ unmap 4096 10240
      ∷ close_fd 3
      ∷ gem_close 5
      ∷ free_priv
      ∷ []
unfolding grab_and_release do_grab validate_fb_dims validate_fb_size direct close_auxiliary
    frame_release
released_in_order = refl

-- A linear descriptor from the helper that cannot be mapped: the grab succeeds without pixels.
abbrev cannot_map : Answers
cannot_map = record unprivileged { cpu_map = err einval }

succeeds_without_pixels :
    let o = do_grab true cannot_map empty ctx in (o.1 ≡ ok tt) × (o.2.frame.data_ptr ≡ null)
unfolding do_grab validate_fb_dims validate_fb_size close_auxiliary by_helper ensure_buf check_reply
    format_min_bpp scanout_width
succeeds_without_pixels = (refl, refl)
