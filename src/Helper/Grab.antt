-- ===== src/Helper/Grab.antt =====
-- drmtap_helper_grab of src/privilege_helper.c: what becomes of the descriptors of a reply.
use libdrmtap.Prelude.{
  ℕ, zero, suc, ◌+◌, ◌-◌, ◌*◌, ◌≡◌, ◌⊎◌, Bool, not, true, false, ltb, ◌==◌, if◌then◌else◌, Option,
  none, some, List, [], ◌∷◌, ◌++◌, length, get_or, drop, bit_and,
}
use libdrmtap.Errno.{Ret, ok, err, eio, enospc}
use libdrmtap.Wire.Stream.{
  Step, moved, Received, Verdict, complete, broken, waiting, piece, recv_all,
}
use libdrmtap.Wire.Descriptor.{Message, Reply, recv_fd, fd_list, occurs, given}
use libdrmtap.Helper.{Env, Helper, helper_spawn, helper_stop}

-- The 64 bytes of helper_grab_wire_t, of which data_size stands at 20 and flags at 48.
abbrev pub wire_size : ℕ
wire_size = 64

abbrev pub le32_at : List ℕ → ℕ → ℕ
le32_at bs i =
    get_or bs i 0
    + 256 * get_or bs (i + 1) 0
    + 65536 * get_or bs (i + 2) 0
    + 16777216 * get_or bs (i + 3) 0

abbrev pub data_size : List ℕ → ℕ
data_size meta = le32_at meta 20

abbrev pub has_dmabuf : List ℕ → Bool
has_dmabuf meta = not (bit_and (le32_at meta 48) 1 == 0)

-- The command is sent, and once more on a fresh helper; a helper that cannot be started ends the
-- request with the reason.
abbrev pub resent_as : Bool → Helper → Ret (Unit {0}) × Helper
resent_as true h = (ok tt, h)
resent_as false h = (err eio, h)

abbrev pub respawned : Env → Ret (Unit {0}) × Helper → Ret (Unit {0}) × Helper
respawned e (err x, h) = (err x, h)
respawned e (ok _, h) = resent_as (e.sends h.sent) (record h { sent = h.sent + 1 })

abbrev pub send_grab_as : Bool → Env → Helper → Ret (Unit {0}) × Helper
send_grab_as true e h = (ok tt, h)
send_grab_as false e h = respawned e (helper_spawn e (helper_stop h))

unfoldable pub send_grab : Env → Helper → Ret (Unit {0}) × Helper
send_grab e h = send_grab_as (e.sends h.sent) e (record h { sent = h.sent + 1 })

-- What a grab gives: the descriptor of a DMA-BUF, or the pixels in the caller's buffer.
pub record Grabbed : Type 0 where
  pub dmabuf_fd : Option ℕ
  pub pixels : List ℕ

-- The end of a request: its result, the descriptors it closed, and the helper. `none` as a result is
-- a request that still waits for the socket.
pub record Ended : Type 0 where
  pub result : Option (Ret Grabbed)
  pub closed : List ℕ
  pub helper : Helper

abbrev pub ended : Option (Ret Grabbed) → List ℕ → Helper → Ended
ended r closed h = record { result = r; closed = closed; helper = h }

-- Pixels that the buffer cannot hold are read away, at most 4096 bytes at once. Unlike recv_all,
-- this loop takes an interrupted call for a failure.
abbrev chunk_rest : ℕ → ℕ
chunk_rest want = if ltb want 4096 then want else 4095

unfoldable pub drain : List Step → ℕ → List ℕ → Verdict
drain steps zero queue = complete
drain [] (suc want) queue = waiting
drain (moved n ∷ steps) (suc want) [] = waiting
drain (moved n ∷ steps) (suc want) (b ∷ queue) =
    let bs = piece n (chunk_rest want) queue in
    drain steps (want - length bs) (drop (length bs) queue)
drain (_ ∷ steps) (suc want) queue = broken

-- A drain that fails stops the helper.
abbrev pub drained : Verdict → List ℕ → Helper → Ended
drained complete closed h = ended (some (err enospc)) closed h
drained broken closed h = ended (some (err eio)) closed (helper_stop h)
drained waiting closed h = ended none closed h

abbrev pub with_pixels : Received → List ℕ → Helper → Ended
with_pixels r closed h = elim r.verdict [
  | complete ↦ ended (some (ok (record { dmabuf_fd = none; pixels = r.got }))) closed h
  | broken ↦ ended (some (err eio)) closed h
  | waiting ↦ ended none closed h
]

unfoldable pub recv_frame : List Step → List ℕ → ℕ → ℕ → List ℕ → Helper → Ended
recv_frame steps queue size buf_size closed h =
    if size == 0
    then ended (some (err eio)) closed h
    else if ltb buf_size size
    then drained (drain steps size queue) closed h
    else with_pixels (recv_all steps size queue) closed h

-- A reply that announces a DMA-BUF must bring one; any other must not, and what it brings is closed.
abbrev pub on_dmabuf : Option ℕ → List ℕ → Helper → Ended
on_dmabuf none closed h = ended (some (err eio)) closed h
on_dmabuf (some fd) closed h =
    ended (some (ok (record { dmabuf_fd = some fd; pixels = [] }))) closed h

abbrev pub on_reply : Bool → List Step → List ℕ → ℕ → Reply → Helper → Ended
on_reply true steps queue buf_size r h = on_dmabuf r.out_fd r.closed h
on_reply false steps queue buf_size r h =
    recv_frame steps queue (data_size r.meta) buf_size (r.closed ++ fd_list r.out_fd) h

abbrev pub on_meta : Verdict → List Step → List ℕ → ℕ → Reply → Helper → Ended
on_meta complete steps queue buf_size r h = on_reply (has_dmabuf r.meta) steps queue buf_size r h
on_meta broken steps queue buf_size r h = ended (some (err eio)) r.closed h
on_meta waiting steps queue buf_size r h = ended none r.closed h

-- `m` is the reply's first message, `more` the schedule and bytes of the rest of its metadata, and
-- `steps` and `queue` those of the pixels.
abbrev pub on_sent :
    Ret (Unit {0}) × Helper → Option Message → List Step × List ℕ → List Step → List ℕ → ℕ → Ended
on_sent (err x, h) m more steps queue buf_size = ended (some (err x)) [] h
on_sent (ok _, h) m more steps queue buf_size =
    let r = recv_fd m wire_size more.0 more.1 in on_meta r.verdict steps queue buf_size r h

abbrev pub on_spawned :
    Env
    → Ret (Unit {0}) × Helper
    → Option Message
    → List Step × List ℕ
    → List Step
    → List ℕ
    → ℕ
    → Ended
on_spawned e (err x, h) m more steps queue buf_size = ended (some (err x)) [] h
on_spawned e (ok _, h) m more steps queue buf_size =
    on_sent (send_grab e h) m more steps queue buf_size

unfoldable pub helper_grab :
    Env → Helper → Option Message → List Step × List ℕ → List Step → List ℕ → ℕ → Ended
helper_grab e h m more steps queue buf_size =
    on_spawned e (helper_spawn e h) m more steps queue buf_size

-- The descriptor that a result hands to the caller.
abbrev pub handed : Option (Ret Grabbed) → Option ℕ
handed none = none
handed (some (err e)) = none
handed (some (ok g)) = g.dmabuf_fd

-- Of the descriptors in `fds`, each is handed to the caller or closed, once a result is there.
abbrev pub Settles : List ℕ → Ended → Type 0
Settles fds r =
    (r.result ≡ none)
    ⊎ ((fd : ℕ) → occurs fd (fd_list (handed r.result)) + occurs fd r.closed ≡ occurs fd fds)

abbrev pub GrabSettles : Option Message → Ended → Type 0
GrabSettles m r = ((handed r.result ≡ none) × (r.closed ≡ [])) ⊎ Settles (given m) r
