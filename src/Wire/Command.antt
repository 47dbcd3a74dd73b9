-- ===== src/Wire/Command.antt =====
-- The command frames: wire_cmd, wire_cmd_valid, and their 16 bytes on the socket.
use libdrmtap.Prelude.{
  ℕ, ◌+◌, ◌*◌, ◌/◌, ◌%◌, ◌^◌, ◌≤◌, ◌<◌, ◌≡◌, ◌⊎◌, ◌↔◌, refl, ap, ◌∙◌, arith, Bool, ◌&&◌, ◌||◌, true,
  Option, none, some, List, [], ◌∷◌, ◌++◌, ◌==◌, if◌then◌else◌,
}
use libdrmtap.Wire.Stream.{
  Step, Received, Verdict, complete, broken, waiting, send_all, recv_all, IsWilling, moves,
  send_all-frame, recv_all-frame,
}

-- helper_cmd_grab_t
pub record Command : Type 0 where
  pub magic : ℕ
  pub version : ℕ
  pub type : ℕ
  pub length : ℕ
  pub crtc_id : ℕ

abbrev pub proto_magic : ℕ
proto_magic = 0x544d5244

abbrev pub proto_version : ℕ
proto_version = 1

abbrev pub cmd_grab : ℕ
cmd_grab = 1

abbrev pub cmd_get_cursor : ℕ
cmd_get_cursor = 2

abbrev pub cmd_get_cursor2 : ℕ
cmd_get_cursor2 = 3

abbrev pub cmd_quit : ℕ
cmd_quit = 0xff

unfoldable pub wire_cmd : ℕ → ℕ → Command
wire_cmd type crtc_id = record {
  magic = proto_magic;
  version = proto_version;
  type = type;
  length = 16;
  crtc_id = crtc_id;
}

unfoldable pub wire_cmd_valid : Command → Bool
wire_cmd_valid c =
    (c.magic == proto_magic)
    && ((c.version == proto_version)
        && ((c.length == 16)
            && ((c.type == cmd_grab)
                || ((c.type == cmd_get_cursor)
                    || ((c.type == cmd_get_cursor2) || (c.type == cmd_quit))))))

-- The struct in memory, which is what is sent: little-endian fields without padding.
abbrev pub le16 : ℕ → List ℕ
le16 v = v % 256 ∷ v / 256 % 256 ∷ []

abbrev pub le32 : ℕ → List ℕ
le32 v = v % 256 ∷ v / 256 % 256 ∷ v / 65536 % 256 ∷ v / 16777216 % 256 ∷ []

unfoldable pub frame_bytes : Command → List ℕ
frame_bytes c =
    le32 c.magic ++ (le16 c.version ++ (le16 c.type ++ (le32 c.length ++ le32 c.crtc_id)))

abbrev pub of_le16 : ℕ → ℕ → ℕ
of_le16 a b = a + 256 * b

abbrev pub of_le32 : ℕ → ℕ → ℕ → ℕ → ℕ
of_le32 a b c d = a + 256 * b + 65536 * c + 16777216 * d

-- The 16 bytes received, as the struct; any other number of bytes is no frame.
unfoldable pub frame_of : List ℕ → Option Command
frame_of (a ∷ b ∷ c ∷ d ∷ e ∷ f ∷ g ∷ h ∷ i ∷ j ∷ k ∷ l ∷ m ∷ n ∷ o ∷ p ∷ []) = some (record {
  magic = of_le32 a b c d;
  version = of_le16 e f;
  type = of_le16 g h;
  length = of_le32 i j k l;
  crtc_id = of_le32 m n o p;
})
frame_of _ = none

-- The helper's side of one command: receive a frame, and act only on a whole and valid one.
abbrev pub checked : Option Command → Option Command
checked none = none
checked (some c) = if wire_cmd_valid c then some c else none

abbrev pub gate : Verdict → List ℕ → Option Command
gate complete got = checked (frame_of got)
gate broken got = none
gate waiting got = none

unfoldable pub recv_cmd : List Step → List ℕ → Option Command × List ℕ
recv_cmd steps queue = let r = recv_all steps 16 queue in (gate r.verdict r.got, r.left)

-- The command types that exist.
abbrev pub IsType : ℕ → Type 0
IsType t = (t ≡ cmd_grab) ⊎ ((t ≡ cmd_get_cursor) ⊎ ((t ≡ cmd_get_cursor2) ⊎ (t ≡ cmd_quit)))

-- The gate passes exactly the frames of this build: a command of a known type as wire_cmd makes it.
pub wire_cmd_valid_iff :
    (c : Command) → (wire_cmd_valid c ≡ true) ↔ (IsType c.type × (c ≡ wire_cmd c.type c.crtc_id))
unfolding wire_cmd_valid wire_cmd
wire_cmd_valid_iff c = (
  (λ v. (ground arith, built c (ground arith) (ground arith) (ground arith))),
  λ (t, e).
      let m : c.magic ≡ proto_magic = ap (λ (x : Command). x.magic) e in
      let v : c.version ≡ proto_version = ap (λ (x : Command). x.version) e in
      let l : c.length ≡ 16 = ap (λ (x : Command). x.length) e in ground (arith, m, v, l, t),
)
  where
    built :
        (d : Command)
        → d.magic ≡ proto_magic
        → d.version ≡ proto_version
        → d.length ≡ 16
        → d ≡ wire_cmd d.type d.crtc_id
    built d m v l = cc (m, v, l)

frame_of-frame_bytes :
    (t crtc : ℕ)
    → t < 2 ^ 16
    → crtc < 2 ^ 32
    → frame_of (frame_bytes (wire_cmd t crtc)) ≡ some (wire_cmd t crtc)
unfolding frame_of frame_bytes wire_cmd
frame_of-frame_bytes t crtc p q =
    let a : of_le16 (t % 256) (t / 256 % 256) ≡ t = omega arith in
    let b : of_le32 (crtc % 256) (crtc / 256 % 256) (crtc / 65536 % 256) (crtc / 16777216 % 256)
        ≡ crtc =
      omega arith in
    cc (a, b)

wire_cmd-valid : (t crtc : ℕ) → IsType t → wire_cmd_valid (wire_cmd t crtc) ≡ true
unfolding wire_cmd
wire_cmd-valid t crtc known = (wire_cmd_valid_iff (wire_cmd t crtc)).1 (known, refl)

gate-frame :
    (t crtc : ℕ)
    → IsType t
    → crtc < 2 ^ 32
    → gate complete (frame_bytes (wire_cmd t crtc)) ≡ some (wire_cmd t crtc)
gate-frame t crtc known small =
    let narrow : t < 2 ^ 16 = ground (arith, known) in
    ap checked (frame_of-frame_bytes t crtc narrow small) ∙ rw (wire_cmd-valid t crtc known) refl

-- The helper's side: a frame at the head of the queue is received and passed.
pub recv_cmd-frame :
    (recvs : List Step) (t crtc : ℕ) (later : List ℕ)
    → IsType t
    → crtc < 2 ^ 32
    → IsWilling recvs
    → 16 ≤ moves recvs
    → recv_cmd recvs (frame_bytes (wire_cmd t crtc) ++ later) ≡ (some (wire_cmd t crtc), later)
unfolding recv_cmd frame_bytes wire_cmd
recv_cmd-frame recvs t crtc later known small willing enough =
    let frame = frame_bytes (wire_cmd t crtc) in
    ap (λ (r : Received). (gate r.verdict r.got, r.left))
      (recv_all-frame recvs frame later willing enough)
    ∙ ap (λ x. (x, later)) (gate-frame t crtc known small)

-- A command crosses the socket: with enough progress on both sides, however the calls split and
-- interrupt it, it is sent whole, and the helper receives exactly the command that the library
-- built, passes it, and leaves what follows on the socket.
pub command-delivered :
    (sends recvs : List Step) (t crtc : ℕ) (later : List ℕ)
    → IsType t
    → crtc < 2 ^ 32
    → IsWilling sends
    → IsWilling recvs
    → 16 ≤ moves sends
    → 16 ≤ moves recvs
    → let (out, v) = send_all sends (frame_bytes (wire_cmd t crtc)) in
      (v ≡ complete) × (recv_cmd recvs (out ++ later) ≡ (some (wire_cmd t crtc), later))
unfolding frame_bytes
command-delivered sends recvs t crtc later known small vs vr enough_s enough_r =
    let sent = send_all-frame sends (frame_bytes (wire_cmd t crtc)) vs enough_s in
    (
      ap (λ x. x.1) sent,
      ap (λ (x : List ℕ × Verdict). recv_cmd recvs (x.0 ++ later)) sent
          ∙ recv_cmd-frame recvs t crtc later known small vr enough_r,
    )
