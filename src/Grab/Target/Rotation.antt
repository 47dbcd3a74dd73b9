-- ===== src/Grab/Target/Rotation.antt =====
-- drmtap_plane_rotation, which remembers the property's id.
use Prim.Native.String.{String}
use text.Mathlib.Text.{◌==◌ as str_eq}
use libdrmtap.Prelude.{
  ℕ, ◌==◌, Bool, true, false, if◌then◌else◌, u32, Option, none, some, List, [], ◌∷◌,
}
use libdrmtap.Errno.{Errno, Ret, ok, err, enotsup, enoent}
use libdrmtap.Grab.Target.{Kernel, find_primary_plane}

-- rot_prop_state: 0, 1 and -1
pub data RotState : Type 0 where
  pending remembered absent : RotState

-- The part of drmtap_ctx that is used.
pub record Context : Type 0 where
  pub crtc_id : ℕ
  pub grab_plane_id : ℕ
  pub rot_prop_plane_id : ℕ
  pub rot_prop_id : ℕ
  pub rot_prop_state : RotState

-- A property of a plane: the name may be unreadable, the value comes with the list.
pub record Property : Type 0 where
  pub id : ℕ
  pub name : Ret String
  pub value : ℕ

pub data Lookup : Type 0 where
  found : ℕ → ℕ → Lookup
  missing : Option Errno → Lookup

-- The first property of that name, and the last error on the way.
abbrev pub named : Ret String → Property → (Option Errno → Lookup) → Option Errno → Lookup
named (err e) p later failed = later (some e)
named (ok n) p later failed = if str_eq n "rotation" then found p.id p.value else later failed

unfoldable pub by_name : List Property → Option Errno → Lookup
by_name [] failed = missing failed
by_name (p ∷ ps) failed = let later = by_name ps in named p.name p later failed

unfoldable pub by_id : ℕ → List Property → Option ℕ
by_id id [] = none
by_id id (p ∷ ps) = let later = by_id id ps in if p.id == id then some p.value else later

-- Another plane has other properties.
unfoldable pub rebind : Context → ℕ → Context
rebind c plane =
    if plane == c.rot_prop_plane_id
    then c
    else record c { rot_prop_plane_id = plane; rot_prop_id = 0; rot_prop_state = pending }

abbrev pub looked_up : Lookup → Context → Ret ℕ × Context
looked_up (found id v) c = (ok (u32 v), record c { rot_prop_id = id; rot_prop_state = remembered })
looked_up (missing none) c = (err enotsup, record c { rot_prop_state = absent })
looked_up (missing (some e)) c = (err e, c)

-- The property set changed: it is looked up by name the next time.
abbrev pub at_id : Option ℕ → Context → Ret ℕ × Context
at_id (some v) c = (ok (u32 v), c)
at_id none c = (err enotsup, record c { rot_prop_id = 0; rot_prop_state = pending })

abbrev pub by_state : RotState → Ret (List Property) → Context → Ret ℕ × Context
by_state absent ps c = (err enotsup, c)
by_state s (err e) c = (err e, c)
by_state pending (ok ps) c = looked_up (by_name ps none) c
by_state remembered (ok ps) c = at_id (by_id c.rot_prop_id ps) c

abbrev pub of_plane : (ℕ → Ret (List Property)) → ℕ → Context → Ret ℕ × Context
of_plane props plane c =
    if plane == 0
    then (err enoent, c)
    else let c' = rebind c plane in by_state c'.rot_prop_state (props plane) c'

-- The plane of the last grab, or that which a grab would use, which settles the CRTC too.
abbrev pub plane_of : Kernel → Context → ℕ × ℕ
plane_of k c =
    if c.grab_plane_id == 0 then find_primary_plane k c.crtc_id else (c.grab_plane_id, c.crtc_id)

unfoldable pub plane_rotation :
    Bool → Kernel → (ℕ → Ret (List Property)) → Context → Ret ℕ × Context
plane_rotation true k props c = (err enotsup, c)
plane_rotation false k props c =
    let (plane, crtc) = plane_of k c in of_plane props plane (record c { crtc_id = crtc })
