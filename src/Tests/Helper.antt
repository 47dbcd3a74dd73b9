-- ===== src/Tests/Helper.antt =====
-- Cursor requests of src/privilege_helper.c to a helper that is too old to know CMD_GET_CURSOR2.
use libdrmtap.Prelude.{
  ◌≡◌, refl, List, [], ◌∷◌, true, false, Option, none, some, ltb, if◌then◌else◌,
}
use libdrmtap.Errno.{ok}
use libdrmtap.Wire.Stream.{Step, moved}
use libdrmtap.Wire.Descriptor.{rights, Message}
use libdrmtap.Helper.{
  CursorReply, Env, Helper, Cursor, Result, get_cursor, helper_spawn, helper_stop, send_cmd,
  recv_pixels,
}
use libdrmtap.Helper.Outcome.{Ends, get_cursor-Ends}

abbrev arrow : CursorReply
arrow = record {
  hot_x = 0;
  hot_y = 0;
  visible = true;
  data_size = 16384;
  hot_from_property = false;
}

-- The third helper, asked with the old command, answers.
abbrev old_binary : Env
old_binary = record {
  spawns = λ n. ok tt;
  sends = λ n. true;
  replies = λ n. if ltb n 2 then none else some arrow;
  allocs = λ n. true;
  pixels = λ n. true;
}

abbrev idle : Helper
idle = record {
  running = false;
  helper_no_cursor2 = false;
  helper_cursor2_ok = false;
  helper_cursor2_retried = false;
  attempts = 0;
  sent = 0;
  received = 0;
  started = 0;
  stopped = 0;
}

abbrev cursor_in : Option Result → Option Cursor
cursor_in none = none
cursor_in (some (ok c, h)) = some c
cursor_in (some (_, h)) = none

-- It keeps the cursor and loses the provenance.
get_cursor_old :
    cursor_in (get_cursor 3 old_binary idle)
    ≡ some (record { hot_x = 0; hot_y = 0; visible = true; provenance = none; has_pixels = true })
unfolding get_cursor helper_spawn helper_stop send_cmd recv_pixels
get_cursor_old = refl

get_cursor-Ends_example : Ends idle (get_cursor 3 old_binary idle)
get_cursor-Ends_example = get_cursor-Ends old_binary idle

-- A reply with two descriptors, of which one is refused before the metadata is looked at.
abbrev two_fds : Message
two_fds = record { bytes = 1 ∷ 2 ∷ []; controls = rights (8 ∷ 9 ∷ []) ∷ []; truncated = false }

abbrev calls : List Step
calls = moved 63 ∷ moved 63 ∷ []
