-- ===== src/Grab/Convert/Exits.antt =====
-- drmtap_convert_dmabuf on every exit: what it holds, where it maps, and what it copies.
use libdrmtap.Prelude.{ℕ, ◌+◌, ◌*◌, ◌≤◌, ◌≡◌, true, List, [], ◌∷◌}
use libdrmtap.Errno.{Ret, ok, err}
use libdrmtap.Memory.Repack.{no_copy, CopiesAs}
use libdrmtap.Grab.Fast.{null, Event, map_at, is_set}
use libdrmtap.Grab.Fast.Frame.{Frame}
use libdrmtap.Grab.Fast.Ledger.{Resource, Balanced}
use libdrmtap.Grab.OneShot.Call.{Desc}
use libdrmtap.Grab.Convert.{probe_size, Answers, Outcome, pitch, offset}

-- A mapping of the main plane, which lies within the size that the kernel gave.
abbrev pub MapsWithin : Desc → ℕ → List Event → Type 0
MapsWithin d size [] = Unit
MapsWithin d size (map_at p n ∷ es) =
    (n ≡ pitch d * d.height) × (offset d + n ≤ size) × MapsWithin d size es
MapsWithin d size (_ ∷ es) = MapsWithin d size es

-- A success has pixels, an error none.
abbrev pub PixelsAs : Ret (Unit {0}) → Frame → Type 0
PixelsAs (ok _) f = is_set f.data_ptr ≡ true
PixelsAs (err e) f = f.data_ptr ≡ null

-- A call that has `n` in its hands.
abbrev pub Exits : (Resource → ℕ) → Answers → Desc → ℕ → Outcome → Type 0
Exits w a d n o =
    Balanced w n o.0 0
    × MapsWithin d (probe_size a.second) o.0
    × PixelsAs o.1 o.2
    × CopiesAs a.source d.width d.height (pitch d) o.3

-- A descriptor is refused with nothing done, or every exit holds nothing in the end: the windows are
-- ended, the mapping is undone and the descriptor of the caller stays open. The mapping is that of
-- the main plane and lies within the buffer; a success has pixels and an error none; and pixels
-- that are copied are the picture, row by row without padding, with no access out of a buffer.
abbrev pub Refused : Ret (Unit {0}) → Frame → Outcome → Type 0
Refused (ok _) f o = ⊥
Refused (err e) f o = o ≡ ([], err e, f, no_copy)
