-- ===== src/Tests/Target.antt =====
-- The choice of the plane and its rotation, on a CRTC with an overlay and a primary plane.
use libdrmtap.Prelude.{
  ℕ, ◌≡◌, ◌≢◌, ◌<◌, ◌==◌, arith, refl, sym, subst, none, some, false, if◌then◌else◌, length, List,
  Option, [], ◌∷◌,
}
use libdrmtap.Errno.{Ret, ok, err, enodev}
use libdrmtap.Cursor.{Properties}
use libdrmtap.Display.Refresh.{Mode}
use libdrmtap.Grab.Target.{
  PlaneState, Kernel, first_active, is_primary, search_primary, find_primary_plane,
}
use libdrmtap.Grab.Target.Choice.{AreNamed, preferred, id_of, fb_of}
use libdrmtap.Grab.Target.Rotation.{Context, Property, remembered, plane_of, plane_rotation}
use libdrmtap.Grab.Target.Remembered.{
  Table, AreUnique, IsCoherent, Answers, rotation_id, plane_rotation_lem,
}
use libdrmtap.Server.{Planes, enter_primary, probe_planes, search_planes}
use libdrmtap.Server.SamePlane.{start, search_planes_same}

abbrev planes : List (Option PlaneState)
planes =
    none
    ∷ some (record { plane_id = 40; crtc_id = 9; fb_id = 70 })
    ∷ some (record { plane_id = 41; crtc_id = 9; fb_id = 71 })
    ∷ []

-- Plane 41 is primary.
abbrev types : ℕ → Option Properties
types id = some (none ∷ some ("type", if id == 41 then 1 else 0) ∷ [])

abbrev full_hd : Mode
full_hd = record {
  clock = 148500;
  htotal = 2200;
  vtotal = 1125;
  interlace = false;
  dblscan = false;
  vscan = 1;
}

abbrev card : Kernel
card = record {
  planes = some planes;
  crtcs = some (none ∷ some (record { crtc_id = 9; mode = some full_hd }) ∷ []);
  get_crtc = λ id. err enodev;
  props = types;
  connectors = none;
  blobs = λ id. none;
}

planes-AreNamed : AreNamed planes
planes-AreNamed = (λ e. ground (arith, e), (λ e. ground (arith, e), tt))

found_primary : find_primary_plane card 0 ≡ (41, 9)
unfolding find_primary_plane first_active search_primary is_primary
found_primary = refl

abbrev helper_planes : Planes
helper_planes = record { planes = some planes; ids = some (39 ∷ 40 ∷ 41 ∷ []); props = types }

probed_one : probe_planes types (39 ∷ 40 ∷ 41 ∷ []) [] ≡ 41 ∷ []
unfolding probe_planes enter_primary
probed_one = refl

some_room : length (probe_planes types (39 ∷ 40 ∷ 41 ∷ []) []) < 32
some_room = subst (λ l. length l < 32) (sym probed_one) (omega arith)

abbrev crtc_nine : ℕ
crtc_nine = 9

nine_named : crtc_nine ≢ 0
nine_named e = ground (arith, e)

search_planes_same_example :
    (search_primary 9 types planes 0 ≡ id_of (preferred 9 types planes))
    × ((search_planes 9 helper_planes planes (start none)).fb_id ≡ fb_of (preferred 9 types planes))
search_planes_same_example =
    search_planes_same helper_planes (39 ∷ 40 ∷ 41 ∷ []) planes none 9 nine_named planes-AreNamed
      (refl, (refl, tt)) some_room refl

-- A plane that rotates, whose property was found before.
abbrev rotating : Table
rotating = (1, "type") ∷ (8, "rotation") ∷ []

abbrev rotated : List Property
rotated =
    record { id = 1; name = ok "type"; value = 1 }
    ∷ record { id = 8; name = ok "rotation"; value = 4 }
    ∷ []

abbrev seen : Context
seen = record {
  crtc_id = 9;
  grab_plane_id = 41;
  rot_prop_plane_id = 41;
  rot_prop_id = 8;
  rot_prop_state = remembered;
}

abbrev has_rotating : ℕ → Table
has_rotating plane = rotating

rotating-AreUnique : AreUnique rotating
rotating-AreUnique = ((λ e. ground (arith, e), tt), (tt, tt))

seen-IsCoherent : IsCoherent has_rotating seen
unfolding rotation_id
seen-IsCoherent = refl

plane_there : (plane_of card seen).0 ≢ 0
plane_there e = ground (arith, e)

abbrev reads : ℕ → Ret (List Property)
reads plane = ok rotated

plane_rotation_lem_example : Answers has_rotating rotated (plane_rotation false card reads seen)
plane_rotation_lem_example =
    plane_rotation_lem has_rotating card reads rotated seen rotating-AreUnique refl
      (refl, refl, (refl, refl, tt)) plane_there seen-IsCoherent
