-- ===== src/Helper.antt =====
-- src/privilege_helper.c: the helper process as the library sees it, and the cursor requests to it.
pub mod Outcome
pub mod Grab
use libdrmtap.Prelude.{
  ℕ, zero, suc, ◌+◌, ◌*◌, Bool, ◌&&◌, not, true, false, ltb, ◌==◌, if◌then◌else◌, Option, none,
  some,
}
use libdrmtap.Errno.{Errno, Ret, ok, err, eio, enomem}

-- helper_cursor_wire2_t, without the coordinates that are passed through as they are.
pub record CursorReply : Type 0 where
  pub hot_x : ℕ
  pub hot_y : ℕ
  pub visible : Bool
  pub data_size : ℕ
  pub hot_from_property : Bool

-- What the system answers to the n-th attempt of each kind: to start a helper, to send a command, to
-- receive the metadata of a reply, to allocate and to receive the pixels.
pub record Env : Type 0 where
  pub spawns : ℕ → Ret (Unit {0})
  pub sends : ℕ → Bool
  pub replies : ℕ → Option CursorReply
  pub allocs : ℕ → Bool
  pub pixels : ℕ → Bool

-- The part of drmtap_ctx that the requests use. helper_fd and helper_pid are set and cleared
-- together, so `running` stands for both; the counters say how far Env has been used, and how many
-- helpers have been started and stopped.
pub record Helper : Type 0 where
  pub running : Bool
  pub helper_no_cursor2 : Bool
  pub helper_cursor2_ok : Bool
  pub helper_cursor2_retried : Bool
  pub attempts : ℕ
  pub sent : ℕ
  pub received : ℕ
  pub started : ℕ
  pub stopped : ℕ

abbrev pub started_as : Ret (Unit {0}) → Helper → Ret (Unit {0}) × Helper
started_as (err e) h = (err e, record h { attempts = h.attempts + 1 })
started_as (ok _) h =
    (ok tt, record h { attempts = h.attempts + 1; running = true; started = h.started + 1 })

abbrev pub spawn_unless : Bool → Env → Helper → Ret (Unit {0}) × Helper
spawn_unless true e h = (ok tt, h)
spawn_unless false e h = started_as (e.spawns h.attempts) h

unfoldable pub helper_spawn : Env → Helper → Ret (Unit {0}) × Helper
helper_spawn e h = spawn_unless h.running e h

abbrev pub stop_if : Bool → Helper → Helper
stop_if true h = record h { running = false; stopped = h.stopped + 1 }
stop_if false h = h

unfoldable pub helper_stop : Helper → Helper
helper_stop h = stop_if h.running h

-- The second send, on a fresh helper.
abbrev pub resent : Bool → Helper → Ret (Unit {0}) × Helper
resent true h = (ok tt, h)
resent false h = (err eio, h)

abbrev pub resend : Env → Ret (Unit {0}) × Helper → Ret (Unit {0}) × Helper
resend e (err _, h) = (err eio, h)
resend e (ok _, h) = resent (e.sends h.sent) (record h { sent = h.sent + 1 })

abbrev pub send_as : Bool → Env → Helper → Ret (Unit {0}) × Helper
send_as true e h = (ok tt, h)
send_as false e h = resend e (helper_spawn e (helper_stop h))

-- A command is sent; if that fails, once more on a fresh helper.
unfoldable pub send_cmd : Env → Helper → Ret (Unit {0}) × Helper
send_cmd e h = send_as (e.sends h.sent) e (record h { sent = h.sent + 1 })

-- drmtap_cursor_info; `provenance` is what drmtap_cursor_set_hot_provenance recorded.
pub record Cursor : Type 0 where
  pub hot_x : ℕ
  pub hot_y : ℕ
  pub visible : Bool
  pub provenance : Option Bool
  pub has_pixels : Bool

-- The provenance comes with an extended reply only, which also shows that the helper knows it.
abbrev pub cursor_of : Bool → CursorReply → Cursor
cursor_of extended w = record {
  hot_x = w.hot_x;
  hot_y = w.hot_y;
  visible = w.visible;
  provenance = if extended then some w.hot_from_property else none;
  has_pixels = false;
}

abbrev pub max_cursor_bytes : ℕ
max_cursor_bytes = 256 * 256 * 4

abbrev pub pixels_as : Bool → Bool → Cursor → Ret Cursor
pixels_as false received c = err enomem
pixels_as true false c = err eio
pixels_as true true c = ok (record c { has_pixels = true })

-- The pixels that follow a reply; too many of them are drained.
unfoldable pub recv_pixels : Env → ℕ → CursorReply → Cursor → Ret Cursor
recv_pixels e n w c =
    if w.visible && ltb 0 w.data_size
    then if ltb max_cursor_bytes w.data_size
      then ok (record c { visible = false })
      else pixels_as (e.allocs n) (e.pixels n) c
    else ok c

abbrev pub Result : Type 0
Result = Ret Cursor × Helper

-- No answer to the extended command: it is tried again on a fresh helper, and after a second
-- failure the helper is taken to be an old one.
abbrev pub try_again : (Helper → Option Result) → Bool → Ret (Unit {0}) × Helper → Option Result
try_again again retried (err _, h) = some (err eio, h)
try_again again false (ok _, h) = again (record h { helper_cursor2_retried = true })
try_again again true (ok _, h) = again (record h { helper_no_cursor2 = true })

abbrev pub no_answer : (Helper → Option Result) → Bool → Bool → Env → Helper → Option Result
no_answer again true false e h =
    try_again again h.helper_cursor2_retried (helper_spawn e (helper_stop h))
no_answer again _ _ e h = some (err eio, h)

abbrev pub reply_as :
    (Helper → Option Result) → Bool → Option CursorReply → Env → Helper → Option Result
reply_as again extended none e h = no_answer again extended h.helper_cursor2_ok e h
reply_as again true (some w) e h =
    some (recv_pixels e h.received w (cursor_of true w), record h { helper_cursor2_ok = true })
reply_as again false (some w) e h = some (recv_pixels e h.received w (cursor_of false w), h)

abbrev pub sent_as : (Helper → Option Result) → Env → Ret (Unit {0}) × Helper → Option Result
sent_as again e (err x, h) = some (err x, h)
sent_as again e (ok _, h) =
    reply_as again (not h.helper_no_cursor2) (e.replies h.received) e
      (record h { received = h.received + 1 })

abbrev pub spawned_as : (Helper → Option Result) → Env → Ret (Unit {0}) × Helper → Option Result
spawned_as again e (err x, h) = some (err x, h)
spawned_as again e (ok _, h) = sent_as again e (send_cmd e h)

-- drmtap_helper_get_cursor, which calls itself; `none` is fuel that ran out.
unfoldable pub get_cursor : ℕ → Env → Helper → Option Result
get_cursor zero e h = none
get_cursor (suc fuel) e h = spawned_as (get_cursor fuel e) e (helper_spawn e h)
