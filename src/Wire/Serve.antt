-- ===== src/Wire/Serve.antt =====
-- The event loop of helper/drmtap-helper.c: commands are received, checked and dispatched.
use libdrmtap.Prelude.{
  ℕ, ◌^◌, ◌≤◌, ◌<◌, Bool, true, false, Option, none, some, List, [], ◌∷◌, ◌++◌, ◌≢◌, ◌==◌,
}
use libdrmtap.Wire.Stream.{Step, IsWilling, moves}
use libdrmtap.Wire.Command.{Command, wire_cmd, frame_bytes, recv_cmd, IsType, cmd_quit}

-- The commands answered so far are put before those of the rest of the loop.
abbrev pub answered : Command → List Command × List ℕ → List Command × List ℕ
answered c (cs, left) = (c ∷ cs, left)

-- The commands that are answered, in order, and what is left on the socket when the loop ends: one
-- schedule of the socket per command. A frame that is broken or not valid ends the loop without an
-- answer, and so does CMD_QUIT.
abbrev pub quits : Command → Bool
quits c = c.type == cmd_quit

abbrev pub dispatch : Bool → Command → List Command × List ℕ → List ℕ → List Command × List ℕ
dispatch true c rest left = ([], left)
dispatch false c rest left = answered c rest

abbrev pub on_received :
    Option Command × List ℕ → (List ℕ → List Command × List ℕ) → List Command × List ℕ
on_received (none, left) rest = ([], left)
on_received (some c, left) rest = dispatch (quits c) c (rest left) left

unfoldable pub serve : List (List Step) → List ℕ → List Command × List ℕ
serve [] queue = ([], queue)
serve (steps ∷ more) queue = on_received (recv_cmd steps queue) (λ left. serve more left)

-- A client's commands on the wire, in order: each is a type and a CRTC.
abbrev pub frames : List (ℕ × ℕ) → List ℕ
frames [] = []
frames ((t, crtc) ∷ cs) = frame_bytes (wire_cmd t crtc) ++ frames cs

-- Requests that the helper answers: any type but CMD_QUIT.
abbrev pub AreRequests : List (ℕ × ℕ) → Type 0
AreRequests [] = Unit
AreRequests ((t, crtc) ∷ cs) = (IsType t × (t ≢ cmd_quit) × (crtc < 2 ^ 32)) × AreRequests cs

-- Schedules on which each command can be received.
abbrev pub AreWilling : List (List Step) → Type 0
AreWilling [] = Unit
AreWilling (steps ∷ more) = (IsWilling steps × (16 ≤ moves steps)) × AreWilling more

abbrev pub built : ℕ × ℕ → Command
built (t, crtc) = wire_cmd t crtc
