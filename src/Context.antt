-- ===== src/Context.antt =====
-- src/drmtap.c: the device that a context opens, and the descriptors on the way.
pub mod Ranked
pub mod Opened
pub mod Render
use libdrmtap.Prelude.{
  ℕ, ◌+◌, ◌-◌, ◌==◌, ◌&&◌, not, ltb, Bool, true, false, if◌then◌else◌, Option, none, some, List, [],
  ◌∷◌, ◌++◌,
}

-- The descriptors that are opened and closed; `dup` is F_DUPFD_CLOEXEC to 100 or above.
pub data NodeEvent : Type 0 where
  open_node close_node dup : ℕ → NodeEvent

-- A CRTC of a card; none is one that could not be read.
pub record Scanned : Type 0 where
  pub mode_valid : Bool
  pub buffer_id : ℕ

-- What /dev/dri/card0, card1, ... answer: the descriptor of one that can be opened, and its CRTCs if it
-- has KMS resources.
pub record Node : Type 0 where
  pub fd : Option ℕ
  pub crtcs : Option (List (Option Scanned))

-- The CRTCs that scan out.
unfoldable pub count_active : List (Option Scanned) → ℕ
count_active [] = 0
count_active (none ∷ cs) = count_active cs
count_active (some c ∷ cs) =
    let rest = count_active cs in if c.mode_valid && not (c.buffer_id == 0) then rest + 1 else rest

-- A device with KMS resources: its minor, its descriptor and its active CRTCs.
pub record Device : Type 0 where
  pub minor : ℕ
  pub fd : ℕ
  pub active : ℕ

-- The variables of the scan.
pub record Scan : Type 0 where
  pub best : Option Device
  pub fallback : Option Device

abbrev pub close_old : Option Device → List NodeEvent
close_old none = []
close_old (some d) = close_node d.fd ∷ []

abbrev pub best_active : Option Device → ℕ
best_active none = 0
best_active (some d) = d.active

-- A device without an active CRTC is kept if it is the first.
abbrev pub keep_first : Option Device → Device → Scan → List NodeEvent × Scan
keep_first none d s = ([], record s { fallback = some d })
keep_first (some f) d s = (close_node d.fd ∷ [], s)

-- The best so far is replaced by a better one only.
abbrev pub if_better : Bool → Device → Scan → List NodeEvent × Scan
if_better true d s = (close_old s.best, record s { best = some d })
if_better false d s = (close_node d.fd ∷ [], s)

abbrev pub if_active : Bool → Device → Scan → List NodeEvent × Scan
if_active true d s = if_better (ltb (best_active s.best) d.active) d s
if_active false d s = keep_first s.fallback d s

abbrev pub take_device : Device → Scan → List NodeEvent × Scan
take_device d s = if_active (ltb 0 d.active) d s

abbrev pub probe_node : Option (List (Option Scanned)) → ℕ → ℕ → Scan → List NodeEvent × Scan
probe_node none minor fd s = (close_node fd ∷ [], s)
probe_node (some cs) minor fd s =
    take_device (record { minor = minor; fd = fd; active = count_active cs }) s

abbrev pub try_node : Option ℕ → Option (List (Option Scanned)) → ℕ → Scan → List NodeEvent × Scan
try_node none cs minor s = ([], s)
try_node (some fd) cs minor s = let (es, s') = probe_node cs minor fd s in (open_node fd ∷ es, s')

unfoldable pub scan_nodes : ℕ → List Node → Scan → List NodeEvent × Scan
scan_nodes minor [] s = ([], s)
scan_nodes minor (n ∷ ns) s =
    let (es, s') = try_node n.fd n.crtcs minor s in
    let (fs, t) = scan_nodes (minor + 1) ns s' in (es ++ fs, t)

-- The best device, for which the fallback is closed, or else the fallback.
abbrev pub settle : Scan → Option Device → List NodeEvent × Option Device
settle s none = ([], s.fallback)
settle s (some d) = (close_old s.fallback, some d)

abbrev pub scan_all : List Node → List NodeEvent × Option Device
scan_all ns =
    let (es, s) = scan_nodes 0 ns (record { best = none; fallback = none }) in
    let (fs, d) = settle s s.best in (es ++ fs, d)

-- open_drm_auto. `env` is what opening DRM_DEVICE gives, none if the variable is not there, cannot be
-- opened, or the process is privileged.
abbrev pub fd_of : Option Device → Option ℕ
fd_of none = none
fd_of (some d) = some d.fd

unfoldable pub open_drm_auto : Option ℕ → List Node → List NodeEvent × Option ℕ
open_drm_auto (some fd) ns = (open_node fd ∷ [], some fd)
open_drm_auto none ns = let (es, d) = scan_all ns in (es, fd_of d)

-- Where the descriptor comes from: an explicit path, or the search.
abbrev pub open_explicit : Option ℕ → List NodeEvent × Option ℕ
open_explicit none = ([], none)
open_explicit (some fd) = (open_node fd ∷ [], some fd)

-- The descriptor is moved above 100, if it can be.
abbrev pub protect : Option ℕ → ℕ → List NodeEvent × ℕ
protect none fd = ([], fd)
protect (some high) fd = (dup high ∷ close_node fd ∷ [], high)

abbrev pub protected : Option ℕ → List NodeEvent × Option ℕ → List NodeEvent × Option ℕ
protected high (es, none) = (es, none)
protected high (es, some fd) = let (fs, fd') = protect high fd in (es ++ fs, some fd')

-- drmtap_open as far as the descriptor goes: an explicit path with what opening it gives, or none.
abbrev pub open_device : Option (Option ℕ) → Option ℕ → List Node → List NodeEvent × Option ℕ
open_device (some answer) env ns = open_explicit answer
open_device none env ns = open_drm_auto env ns

unfoldable pub open_context :
    Option (Option ℕ) → Option ℕ → Option ℕ → List Node → List NodeEvent × Option ℕ
open_context path env high ns = protected high (open_device path env ns)

-- drmtap_list_devices: what opening a node enters, and the loop that stops when `room` is used up.
-- Every descriptor is closed again.
abbrev pub listed_of : Option ℕ → Option (List (Option Scanned)) → ℕ → List Device
listed_of none cs minor = []
listed_of (some fd) none minor = []
listed_of (some fd) (some cs) minor =
    record { minor = minor; fd = fd; active = count_active cs } ∷ []

abbrev pub probe_events : Option ℕ → List NodeEvent
probe_events none = []
probe_events (some fd) = open_node fd ∷ close_node fd ∷ []

abbrev pub room_after : List Device → ℕ → ℕ
room_after [] room = room
room_after (d ∷ ds) room = room - 1

unfoldable pub list_devices : ℕ → List Node → ℕ → List NodeEvent × List Device
list_devices minor [] room = ([], [])
list_devices minor (n ∷ ns) room =
    let found = listed_of n.fd n.crtcs minor in
    let (es, ds) = list_devices (minor + 1) ns (room_after found room) in
    if room == 0 then ([], []) else (probe_events n.fd ++ es, found ++ ds)
