-- ===== src/Wire/Descriptor.antt =====
-- wire_recv_fd: the metadata and at most one descriptor.
use libdrmtap.Prelude.{
  ℕ, ◌+◌, ◌-◌, ◌≤◌, ◌<◌, ◌≡◌, inl, inr, refl, ap, arith, Bool, ◌||◌, Option, none, some, List, [],
  ◌∷◌, ◌++◌, length, length-append, ltb, ◌==◌, if◌then◌else◌, Bool-cases,
}
use libdrmtap.Wire.Stream.{Step, Verdict, complete, broken, waiting, recv_all}

-- A control message: SCM_RIGHTS with the descriptors that the kernel installed, or another kind.
pub data Control : Type 0 where
  rights : List ℕ → Control
  other : Control

-- What recvmsg returned: the metadata bytes that came with it, its control messages, and MSG_CTRUNC.
pub record Message : Type 0 where
  pub bytes : List ℕ
  pub controls : List Control
  pub truncated : Bool

-- The first descriptor, those closed on the spot, and how many there were.
pub record Collected : Type 0 where
  pub accepted : Option ℕ
  pub closed : List ℕ
  pub nfds : ℕ

abbrev pub collect_fd : ℕ → Collected → Collected
collect_fd fd c =
    if c.nfds == 0
    then record c { accepted = some fd; nfds = c.nfds + 1 }
    else record c { closed = c.closed ++ (fd ∷ []); nfds = c.nfds + 1 }

unfoldable pub collect_fds : List ℕ → Collected → Collected
collect_fds [] c = c
collect_fds (fd ∷ fds) c = collect_fds fds (collect_fd fd c)

unfoldable pub collect : List Control → Collected → Collected
collect [] c = c
collect (rights fds ∷ cs) c = collect cs (collect_fds fds c)
collect (other ∷ cs) c = collect cs c

abbrev pub nothing_yet : Collected
nothing_yet = record { accepted = none; closed = []; nfds = 0 }

abbrev pub fd_list : Option ℕ → List ℕ
fd_list none = []
fd_list (some fd) = fd ∷ []

-- The descriptor handed out, the metadata, the descriptors closed, and the verdict.
pub record Reply : Type 0 where
  pub out_fd : Option ℕ
  pub meta : List ℕ
  pub closed : List ℕ
  pub verdict : Verdict

-- The rest of a short first read; on its failure the descriptor is closed.
abbrev pub finish : Collected → List ℕ → Verdict → Reply
finish c meta complete = record {
  out_fd = c.accepted;
  meta = meta;
  closed = c.closed;
  verdict = complete;
}
finish c meta broken = record {
  out_fd = none;
  meta = meta;
  closed = c.closed ++ fd_list c.accepted;
  verdict = broken;
}
finish c meta waiting = record {
  out_fd = c.accepted;
  meta = meta;
  closed = c.closed;
  verdict = waiting;
}

abbrev pub reject : Collected → List ℕ → Reply
reject c bytes = record {
  out_fd = none;
  meta = bytes;
  closed = c.closed ++ fd_list c.accepted;
  verdict = broken;
}

-- `none` is a recvmsg that returned 0 or -1, which installs no descriptor. `steps` and `queue` are
-- for the rest of the metadata.
unfoldable pub recv_fd : Option Message → ℕ → List Step → List ℕ → Reply
recv_fd none want steps queue = record { out_fd = none; meta = []; closed = []; verdict = broken }
recv_fd (some m) want steps queue =
    let c = collect m.controls nothing_yet in
    if m.truncated || ltb 1 c.nfds
    then reject c m.bytes
    else let r = recv_all steps (want - length m.bytes) queue in
      finish c (m.bytes ++ r.got) r.verdict

-- The descriptors that the kernel installed, and how often one occurs in a list.
abbrev pub installed : List Control → List ℕ
installed [] = []
installed (rights fds ∷ cs) = fds ++ installed cs
installed (other ∷ cs) = installed cs

abbrev pub occurs : ℕ → List ℕ → ℕ
occurs fd [] = 0
occurs fd (g ∷ gs) = (if g == fd then 1 else 0) + occurs fd gs

abbrev pub given : Option Message → List ℕ
given none = []
given (some m) = installed m.controls

pub occurs-append : (fd : ℕ) (a b : List ℕ) → occurs fd (a ++ b) ≡ occurs fd a + occurs fd b
occurs-append fd [] b = omega arith
occurs-append fd (g ∷ a) b = omega (arith, occurs-append fd a b)

-- What has been collected is what was installed so far, and a second descriptor is never kept.
record IsCollected (fd n : ℕ) (c : Collected) : Type 0 where
  all : occurs fd (fd_list c.accepted) + occurs fd c.closed ≡ n
  first : (c.nfds ≡ 0) → c.accepted ≡ none

collect_fd-IsCollected :
    (fd n g : ℕ) (c : Collected)
    → IsCollected fd n c
    → IsCollected fd (n + occurs fd (g ∷ [])) (collect_fd g c)
collect_fd-IsCollected fd n g c v = elim (Bool-cases (c.nfds == 0)) [
  | inl z ↦ rw z (record {
    all = omega (arith, v.all, ap (λ o. occurs fd (fd_list o)) (v.first (ground (arith, z))));
    first = λ e. absurd (omega arith);
  })
  | inr nz ↦ rw nz (record {
    all = omega (arith, v.all, occurs-append fd c.closed (g ∷ []));
    first = λ e. absurd (omega arith);
  })
]

collect_fds-IsCollected :
    (fd n : ℕ) (fds : List ℕ) (c : Collected)
    → IsCollected fd n c
    → IsCollected fd (n + occurs fd fds) (collect_fds fds c)
unfolding collect_fds
collect_fds-IsCollected fd n [] c v = record { all = omega (arith, v.all); first = v.first }
collect_fds-IsCollected fd n (g ∷ fds) c v =
    let rest =
      collect_fds-IsCollected fd (n + occurs fd (g ∷ [])) fds (collect_fd g c)
        (collect_fd-IsCollected fd n g c v) in
    record { all = omega (arith, rest.all); first = rest.first }

collect-IsCollected :
    (fd n : ℕ) (cs : List Control) (c : Collected)
    → IsCollected fd n c
    → IsCollected fd (n + occurs fd (installed cs)) (collect cs c)
unfolding collect
collect-IsCollected fd n [] c v = record { all = omega (arith, v.all); first = v.first }
collect-IsCollected fd n (rights fds ∷ cs) c v =
    let rest =
      collect-IsCollected fd (n + occurs fd fds) cs (collect_fds fds c)
        (collect_fds-IsCollected fd n fds c v) in
    record {
      all = omega (arith, rest.all, occurs-append fd fds (installed cs));
      first = rest.first;
    }
collect-IsCollected fd n (other ∷ cs) c v = collect-IsCollected fd n cs c v

collect_fds-nfds : (fds : List ℕ) (c : Collected) → (collect_fds fds c).nfds ≡ c.nfds + length fds
unfolding collect_fds
collect_fds-nfds [] c = omega arith
collect_fds-nfds (g ∷ fds) c = ground (arith, collect_fds-nfds fds (collect_fd g c))

collect-nfds :
    (cs : List Control) (c : Collected) → (collect cs c).nfds ≡ c.nfds + length (installed cs)
unfolding collect
collect-nfds [] c = omega arith
collect-nfds (rights fds ∷ cs) c = omega (
  arith,
  collect-nfds cs (collect_fds fds c),
  collect_fds-nfds fds c,
  length-append fds (installed cs),
)
collect-nfds (other ∷ cs) c = collect-nfds cs c

-- The account of a reply to a message that installed `fds`: each is handed out or closed, a refusal
-- hands out none, and more than one is a refusal.
abbrev pub Accounts : List ℕ → Reply → Type 0
Accounts fds r =
    ((fd : ℕ) → occurs fd (fd_list r.out_fd) + occurs fd r.closed ≡ occurs fd fds)
    × (r.verdict ≡ broken → r.out_fd ≡ none)
    × (1 < length fds → r.verdict ≡ broken)

finish-Accounts :
    (fds : List ℕ) (c : Collected) (meta : List ℕ) (v : Verdict)
    → ((fd : ℕ) → IsCollected fd (occurs fd fds) c)
    → length fds ≤ 1
    → Accounts fds (finish c meta v)
finish-Accounts fds c meta complete v one =
    ((λ fd. (v fd).all), (λ e. absurd (cc e)), λ many. absurd (omega arith))
finish-Accounts fds c meta broken v one = (
  (λ fd. omega (arith, (v fd).all, occurs-append fd c.closed (fd_list c.accepted))),
  (λ e. refl),
  λ many. refl,
)
finish-Accounts fds c meta waiting v one =
    ((λ fd. (v fd).all), (λ e. absurd (cc e)), λ many. absurd (omega arith))

collected :
    (cs : List Control) (fd : ℕ)
    → IsCollected fd (occurs fd (installed cs)) (collect cs nothing_yet)
collected cs fd =
    let v = collect-IsCollected fd 0 cs nothing_yet (record { all = refl; first = λ e. refl }) in
    record { all = omega (arith, v.all); first = v.first }

-- However many descriptors a peer slips in, in however many control messages, and whatever happens
-- to the metadata: every descriptor that the kernel installed is either handed out or closed, each
-- exactly as often as it was installed; a refused message hands out none; and a message with more
-- than one is refused.
pub recv_fd-Accounts :
    (m : Option Message) (want : ℕ) (steps : List Step) (queue : List ℕ)
    → Accounts (given m) (recv_fd m want steps queue)
unfolding recv_fd
recv_fd-Accounts none want steps queue = ((λ fd. refl), (λ e. refl), λ many. refl)
recv_fd-Accounts (some m) want steps queue =
    let c = collect m.controls nothing_yet in
    let r = recv_all steps (want - length m.bytes) queue in
    elim (Bool-cases (m.truncated || ltb 1 c.nfds)) [
      | inl bad ↦ rw bad (
        (λ fd.
            omega (
              arith,
              (collected m.controls fd).all,
              occurs-append fd c.closed (fd_list c.accepted),
            )),
        (λ e. refl),
        λ many. refl,
      )
      | inr good ↦ rw good (
          finish-Accounts (installed m.controls) c (m.bytes ++ r.got) r.verdict
            (collected m.controls) (ground (arith, good, collect-nfds m.controls nothing_yet)))
    ]
