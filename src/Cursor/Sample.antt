-- ===== src/Cursor/Sample.antt =====
-- What drmtap_get_cursor answers, on every exit.
use libdrmtap.Prelude.{ℕ, ◌*◌, ◌≤◌, ◌≡◌, ◌⊎◌, Bool, true, false, [], refl}
use libdrmtap.Errno.{Ret, ok, err, enotsup}
use libdrmtap.Memory.{Buffer}
use libdrmtap.Memory.Repack.{Copy, no_copy, CopiesAs}
use libdrmtap.Grab.Fast.Frame.{Fb2}
use libdrmtap.Grab.Fast.Import.{close_auxiliary}
use libdrmtap.Grab.Fast.Ledger.{Resource, Balanced}
use libdrmtap.Grab.OneShot.Call.{is_denied}
use libdrmtap.Cursor.{
  get_property_value, is_found, Info, cleared, set_hot_provenance, wire_hot_measured,
  cursor_hotspot_valid, cursor_release, Answers, Outcome, placed,
}

-- The framebuffer of a cursor has one plane, and its mapping is as large as its rows.
abbrev pub OnePlane : Ret Fb2 → Buffer → Type 0
OnePlane (err e) s = Unit
OnePlane (ok f) s = (close_auxiliary f.handle [] f.aux_handles ≡ []) × (f.height * f.pitch ≤ s.len)

-- The kernel refused for want of privilege, by its errno or by giving no handle.
abbrev pub Denied : Ret Fb2 → Type 0
Denied (err e) = is_denied e ≡ true
Denied (ok f) = f.handle ≡ 0

-- The pixels, if any, are those of the framebuffer without padding.
abbrev pub Picture : Ret Fb2 → Buffer → Copy → Type 0
Picture (err e) s k = k ≡ no_copy
Picture (ok f) s k = CopiesAs s f.width f.height f.pitch k

abbrev pub measured : Answers → ℕ → Bool
measured a plane =
    wire_hot_measured (is_found (get_property_value "HOTSPOT_X" (a.props plane)))
      (is_found (get_property_value "HOTSPOT_Y" (a.props plane)))

-- A sample that was read directly: a hidden cursor of which every number is 0, or a visible one; either
-- says whether its hotspot was measured.
abbrev pub Read : Answers → ℕ → Info → Type 0
Read a plane c =
    ((record c { priv = 0 } ≡ cleared) × (cursor_hotspot_valid c ≡ ok false))
    ⊎ ((c.visible ≡ true)
        × (cursor_hotspot_valid c ≡ ok (measured a plane))
        × Picture a.fb2 a.source c.pixels)

-- The helper is asked if it runs already, or for want of privilege; else the answer was read
-- directly, or is an error with nothing in the sample.
abbrev pub Answered : Answers → Bool → ℕ → Ret (Unit {0}) → Info → Bool → Type 0
Answered a running plane r c true =
    (r ≡ a.helper.0) × (c ≡ a.helper.1) × ((running ≡ true) ⊎ Denied a.fb2)
Answered a running plane (ok _) c false = Read a plane c
Answered a running plane (err e) c false = c ≡ cleared

abbrev pub Sampled : (Resource → ℕ) → Answers → Bool → ℕ → Outcome → Type 0
Sampled w a running plane o = Balanced w 0 o.0 0 × Answered a running plane o.1 o.2 o.3

pub hotspot_valid-set : (m : Bool) (c : Info) → cursor_hotspot_valid (set_hot_provenance m c) ≡ ok m
unfolding cursor_hotspot_valid set_hot_provenance
hotspot_valid-set true c = refl
hotspot_valid-set false c = refl

module _ (w : Resource → ℕ) (a : Answers) where
  -- The sample of a visible cursor, with what was read of its framebuffer.
  with_fb : ℕ → ℕ → ℕ → Copy → Info
  with_fb plane width height k = record (placed a plane) {
    width = width;
    height = height;
    pixels = k;
  }

-- A sample that has been released says nothing of its hotspot, whatever it said before.
pub hotspot_valid-release : (c : Info) → cursor_hotspot_valid (cursor_release c) ≡ err enotsup
unfolding cursor_hotspot_valid cursor_release
hotspot_valid-release c = refl
