-- ===== src/Tests/Server.antt =====
-- The helper process on a linear framebuffer of a primary plane, and on a cursor plane.
use libdrmtap.Prelude.{ℕ, arith, none, some, true, false, List, Option, [], ◌∷◌}
use libdrmtap.Errno.{ok, err, enodev}
use libdrmtap.Cursor.{Properties}
use libdrmtap.Server.{PlaneState, State}
use libdrmtap.Server.Grab.{Answers}
use libdrmtap.Server.Cursor as Pointer
use libdrmtap.Server.Cursor.{cursor_and_send}
use libdrmtap.Server.Cursor.Shown.{IsMapped, Fits, chosen, cursor_and_send-Fits}
use libdrmtap.Tests.Base.{weights, padded_fb, painted}
use libdrmtap.Tests.Cursor.{cursor_props, virtio}

abbrev plane_props : ℕ → Option Properties
plane_props plane = some (some ("type", 1) ∷ [])

abbrev one_plane : List (Option PlaneState)
one_plane = none ∷ some (record { plane_id = 40; crtc_id = 9; fb_id = 7 }) ∷ []

abbrev linear : Answers
linear = record {
  planes = record { planes = some one_plane; ids = some (40 ∷ []); props = plane_props };
  fb2 = ok (record padded_fb { modifier = some 0 });
  features = none;
  hdr = λ crtc. (0, 0);
  clock_ms = 1;
  exported = err enodev;
  fd_sent = true;
  map_dumb = true;
  cpu_map = some 4096;
  meta_sent = true;
  pixels_sent = true;
}

abbrev fresh : State
fresh = record {
  primary_ids = none;
  virtio_detected = false;
  virtio_virgl = false;
  seq_counter = 0;
}

abbrev pointer : Pointer.Answers
pointer = record {
  planes = some one_plane;
  props = cursor_props;
  fb2 = ok padded_fb;
  exported = ok 3;
  cpu_map = ok 4096;
  granted = true;
  source = painted;
  packed = λ i. 0;
}

pointer-IsMapped : IsMapped pointer.fb2 pointer.source
pointer-IsMapped = omega arith

cursor_and_send-Fits_example :
    Fits weights pointer virtio true 0
      (chosen 9 pointer.props pointer.planes)
      (cursor_and_send pointer true 9)
cursor_and_send-Fits_example = cursor_and_send-Fits weights pointer virtio true 9 pointer-IsMapped
