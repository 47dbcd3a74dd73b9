-- ===== src/Tests/Wire.antt =====
-- The wire of src/wire.h on short schedules.
use libdrmtap.Prelude.{◌≡◌, refl, arith, some, false, List, [], ◌∷◌, ◌++◌, inl, replicate}
use libdrmtap.Wire.Stream.{Step, moved, interrupted, complete, send_all}
use libdrmtap.Wire.Descriptor.{rights, other, Message, recv_fd, Accounts, recv_fd-Accounts}
use libdrmtap.Wire.Command.{Command, wire_cmd, cmd_grab, frame_bytes, recv_cmd, command-delivered}

abbrev bytewise : List Step
bytewise = interrupted ∷ replicate 16 (moved 0)

abbrev at_once : List Step
at_once = moved 15 ∷ replicate 16 (moved 3)

-- A peer that closes after five bytes.
-- Two descriptors in one control message.
abbrev smuggled : Message
smuggled = record {
  bytes = 1 ∷ 2 ∷ [];
  controls = other ∷ rights (8 ∷ 9 ∷ []) ∷ [];
  truncated = false;
}

recv_fd-Accounts_example : Accounts (8 ∷ 9 ∷ []) (recv_fd (some smuggled) 4 at_once (3 ∷ 4 ∷ []))
recv_fd-Accounts_example = recv_fd-Accounts (some smuggled) 4 at_once (3 ∷ 4 ∷ [])

abbrev stale : Command
stale = record { magic = 0x544d5244; version = 2; type = 1; length = 16; crtc_id = 0 }

command-delivered_example :
    let (out, v) = send_all bytewise (frame_bytes (wire_cmd cmd_grab 42)) in
    (v ≡ complete) × (recv_cmd at_once (out ++ (5 ∷ [])) ≡ (some (wire_cmd cmd_grab 42), 5 ∷ []))
command-delivered_example =
    command-delivered bytewise at_once cmd_grab 42 (5 ∷ []) (inl refl) (omega arith) tt tt
      (omega arith) (omega arith)
