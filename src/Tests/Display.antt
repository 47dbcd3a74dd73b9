-- ===== src/Tests/Display.antt =====
-- Displays of a laptop with a monitor, and its refresh rate.
use libdrmtap.Prelude.{◌≡◌, refl, true, false, none, some, [], ◌∷◌, ◌==◌, if◌then◌else◌}
use libdrmtap.Errno.{ok}
use libdrmtap.Display.Refresh.{Mode, mode_refresh, refresh_gcd}
use libdrmtap.Display.Topology.{Card, Connector}

-- 59.94 Hz
abbrev ntsc : Mode
ntsc = record {
  clock = 148352;
  htotal = 2200;
  vtotal = 1125;
  interlace = false;
  dblscan = false;
  vscan = 0;
}

mode_refresh-ntsc : mode_refresh ntsc ≡ ok (some (148352, 2475))
unfolding mode_refresh refresh_gcd
mode_refresh-ntsc = refl

abbrev panel : Connector
panel = record {
  connector_id = 95;
  connection = 1;
  connector_type = 14;
  connector_type_id = 1;
  encoder_crtc = 0;
  atomic_crtc = 42;
  modes = record { preferred = true; hdisplay = 1366; vdisplay = 768; vrefresh = 60 } ∷ [];
}

abbrev laptop : Card
laptop = record {
  connectors = (95, some panel) ∷ (96, none) ∷ [];
  count_crtcs = 3;
  crtcs = λ id.
      if id == 42
      then some (record {
        x = 0;
        y = 0;
        mode_valid = true;
        hdisplay = 1366;
        vdisplay = 768;
        vrefresh = 60;
      })
      else none;
}

abbrev docked : Card
docked = record laptop {
  connectors =
      (95, some panel) ∷ (96, some (record panel { connector_id = 96; atomic_crtc = 0 })) ∷ [];
}
