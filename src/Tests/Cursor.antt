-- ===== src/Tests/Cursor.antt =====
-- src/cursor.c on a plane that a para-virtualised driver publishes.
use libdrmtap.Prelude.{ℕ, some, none, true, List, Option, [], ◌∷◌}
use libdrmtap.Errno.{ok, err, enodev}
use libdrmtap.Cursor.{Properties, PlaneInfo, Answers, cleared}
use libdrmtap.Tests.Base.{padded_fb, painted}

abbrev pub cursor_props : ℕ → Option Properties
cursor_props plane = some (
    some ("type", 2)
    ∷ none
    ∷ some ("CRTC_X", 100)
    ∷ some ("CRTC_Y", 50)
    ∷ some ("HOTSPOT_X", 3)
    ∷ some ("HOTSPOT_Y", 4)
    ∷ [])

abbrev two_planes : List (Option PlaneInfo)
two_planes =
    none
    ∷ some (record { plane_id = 40; crtc_id = 0 })
    ∷ some (record { plane_id = 41; crtc_id = 9 })
    ∷ []

abbrev pub virtio : Answers
virtio = record {
  planes = some two_planes;
  props = cursor_props;
  plane_fb = some 7;
  fb2 = ok padded_fb;
  exported = ok 3;
  cpu_map = ok 4096;
  granted = true;
  malloc = true;
  source = painted;
  garbage = λ i. 0;
  helper = (err enodev, cleared);
}
