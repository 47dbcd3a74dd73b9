-- ===== src/Wire/Stream.antt =====
-- wire_send_all and wire_recv_all: exactly `len` bytes over a stream socket, whatever the pieces.
use mathlib.Core.List.{append_assoc, append-nil}
use libdrmtap.Prelude.{
  ℕ, zero, suc, ◌+◌, ◌-◌, ◌≤◌, ◌≡◌, refl, ap, sym, ◌∙◌, arith, List, [], ◌∷◌, ◌++◌, length,
  length-append, take, drop, ltb, if◌then◌else◌, ◌↔◌, length-take, take-append-drop, length-drop,
}

-- What one send or recv does: it moves at most `n + 1` bytes, is interrupted (EINTR), fails, or
-- finds the peer gone (0).
pub data Step : Type 0 where
  moved : ℕ → Step
  interrupted failed closed : Step

-- How far a loop has come: it returned 0, returned -1, or is still in a system call.
pub data Verdict : Type 0 where
  complete broken waiting : Verdict

-- The bytes that went out, and the verdict.
unfoldable pub send_all : List Step → List ℕ → List ℕ × Verdict
send_all steps [] = ([], complete)
send_all [] (b ∷ bs) = ([], waiting)
send_all (interrupted ∷ steps) (b ∷ bs) = send_all steps (b ∷ bs)
send_all (failed ∷ steps) (b ∷ bs) = ([], broken)
send_all (closed ∷ steps) (b ∷ bs) = ([], broken)
send_all (moved n ∷ steps) (b ∷ bs) =
    let (out, v) = send_all steps (drop n bs) in (b ∷ (take n bs ++ out), v)

-- What a receiver holds: the bytes it has got, those still in the socket, and the verdict.
pub record Received : Type 0 where
  pub got : List ℕ
  pub left : List ℕ
  pub verdict : Verdict

abbrev prefixed : List ℕ → Received → Received
prefixed bs r = record { got = bs ++ r.got; left = r.left; verdict = r.verdict }

abbrev stop : List ℕ → Verdict → Received
stop queue v = record { got = []; left = queue; verdict = v }

-- The bytes after the first that one recv takes, of those still wanted and those queued.
abbrev pub piece : ℕ → ℕ → List ℕ → List ℕ
piece n want queue = take (if ltb n want then n else want) queue

-- recv on an empty queue waits.
unfoldable pub recv_all : List Step → ℕ → List ℕ → Received
recv_all steps zero queue = stop queue complete
recv_all [] (suc want) queue = stop queue waiting
recv_all (interrupted ∷ steps) (suc want) queue = recv_all steps (suc want) queue
recv_all (failed ∷ steps) (suc want) queue = stop queue broken
recv_all (closed ∷ steps) (suc want) queue = stop queue broken
recv_all (moved n ∷ steps) (suc want) [] = stop [] waiting
recv_all (moved n ∷ steps) (suc want) (b ∷ queue) =
    let bs = piece n want queue in
    prefixed (b ∷ bs) (recv_all steps (want - length bs) (drop (length bs) queue))

take-rest : (k : ℕ) (queue : List ℕ) → take k queue ++ drop (length (take k queue)) queue ≡ queue
take-rest zero queue = refl
take-rest (suc k) [] = refl
take-rest (suc k) (b ∷ queue) = ap (λ bs. b ∷ bs) (take-rest k queue)

piece-le : (n want : ℕ) (queue : List ℕ) → length (piece n want queue) ≤ want
piece-le n want queue = ground (arith, length-take (if ltb n want then n else want) queue)

-- What a receiver got and what is left are the queue, in order; it never takes more than it wants;
-- and it reports success exactly if it has all of it, so a truncated frame is never acted on.
pub recv_all_lem :
    (steps : List Step) (want : ℕ) (queue : List ℕ)
    → let r = recv_all steps want queue in
      (r.got ++ r.left ≡ queue)
      × (length r.got ≤ want)
      × ((r.verdict ≡ complete) ↔ (length r.got ≡ want))
unfolding recv_all
recv_all_lem steps zero queue = (refl, omega arith, ((λ e. refl), λ e. refl))
recv_all_lem [] (suc want) queue =
    (refl, omega arith, ((λ e. absurd (cc e)), λ e. absurd (omega arith)))
recv_all_lem (interrupted ∷ steps) (suc want) queue = recv_all_lem steps (suc want) queue
recv_all_lem (failed ∷ steps) (suc want) queue =
    (refl, omega arith, ((λ e. absurd (cc e)), λ e. absurd (omega arith)))
recv_all_lem (closed ∷ steps) (suc want) queue =
    (refl, omega arith, ((λ e. absurd (cc e)), λ e. absurd (omega arith)))
recv_all_lem (moved n ∷ steps) (suc want) [] =
    (refl, omega arith, ((λ e. absurd (cc e)), λ e. absurd (omega arith)))
recv_all_lem (moved n ∷ steps) (suc want) (b ∷ queue) =
    let bs = piece n want queue in
    let r = recv_all steps (want - length bs) (drop (length bs) queue) in
    let rest = recv_all_lem steps (want - length bs) (drop (length bs) queue) in
    let all : length (bs ++ r.got) ≡ length bs + length r.got = length-append bs r.got in
    (
      ap (λ t. b ∷ t)
          (append_assoc bs r.got r.left
            ∙ ap (λ t. bs ++ t) rest.0
            ∙ take-rest (if ltb n want then n else want) queue),
      omega (arith, rest.1, piece-le n want queue, all),
      (
        (λ e. omega (arith, rest.2.0 e, piece-le n want queue, all)),
        λ e. rest.2.1 (omega (arith, e, piece-le n want queue, all)),
      ),
    )

-- A socket on which every call makes progress or is interrupted, and how often it makes progress.
abbrev pub IsWilling : List Step → Type 0
IsWilling [] = Unit
IsWilling (moved n ∷ steps) = IsWilling steps
IsWilling (interrupted ∷ steps) = IsWilling steps
IsWilling (failed ∷ steps) = ⊥
IsWilling (closed ∷ steps) = ⊥

abbrev pub moves : List Step → ℕ
moves [] = 0
moves (moved n ∷ steps) = suc (moves steps)
moves (_ ∷ steps) = moves steps

-- What goes out is a prefix of the buffer, and all of it exactly on success.
pub send_all_lem :
    (steps : List Step) (bytes : List ℕ)
    → let (out, v) = send_all steps bytes in
      (rest : List ℕ) × (bytes ≡ out ++ rest) × ((v ≡ complete) ↔ (rest ≡ []))
unfolding send_all
send_all_lem steps [] = ([], refl, ((λ e. refl), λ e. refl))
send_all_lem [] (b ∷ bs) = (b ∷ bs, refl, ((λ e. absurd (cc e)), λ e. absurd (cc e)))
send_all_lem (interrupted ∷ steps) (b ∷ bs) = send_all_lem steps (b ∷ bs)
send_all_lem (failed ∷ steps) (b ∷ bs) = (b ∷ bs, refl, ((λ e. absurd (cc e)), λ e. absurd (cc e)))
send_all_lem (closed ∷ steps) (b ∷ bs) = (b ∷ bs, refl, ((λ e. absurd (cc e)), λ e. absurd (cc e)))
send_all_lem (moved n ∷ steps) (b ∷ bs) =
    let (rest, whole, ends) = send_all_lem steps (drop n bs) in
    (
      rest,
      ap (λ t. b ∷ t)
          (sym (take-append-drop n bs)
            ∙ ap (λ t. take n bs ++ t) whole
            ∙ sym (append_assoc (take n bs) (send_all steps (drop n bs)).0 rest)),
      ends,
    )

-- Enough progress sends everything.
send_all-complete :
    (steps : List Step) (bytes : List ℕ)
    → IsWilling steps
    → length bytes ≤ moves steps
    → (send_all steps bytes).1 ≡ complete
unfolding send_all
send_all-complete steps [] v enough = refl
send_all-complete [] (b ∷ bs) v enough = absurd (omega arith)
send_all-complete (interrupted ∷ steps) (b ∷ bs) v enough =
    send_all-complete steps (b ∷ bs) v enough
send_all-complete (failed ∷ steps) (b ∷ bs) v enough = elim v [ ]
send_all-complete (closed ∷ steps) (b ∷ bs) v enough = elim v [ ]
send_all-complete (moved n ∷ steps) (b ∷ bs) v enough =
    send_all-complete steps (drop n bs) v (omega (arith, length-drop n bs))

-- Enough progress receives everything that is queued.
recv_all-complete :
    (steps : List Step) (want : ℕ) (queue : List ℕ)
    → IsWilling steps
    → want ≤ moves steps
    → want ≤ length queue
    → (recv_all steps want queue).verdict ≡ complete
unfolding recv_all
recv_all-complete steps zero queue v enough held = refl
recv_all-complete [] (suc want) queue v enough held = absurd (omega arith)
recv_all-complete (interrupted ∷ steps) (suc want) queue v enough held =
    recv_all-complete steps (suc want) queue v enough held
recv_all-complete (failed ∷ steps) (suc want) queue v enough held = elim v [ ]
recv_all-complete (closed ∷ steps) (suc want) queue v enough held = elim v [ ]
recv_all-complete (moved n ∷ steps) (suc want) [] v enough held = absurd (omega arith)
recv_all-complete (moved n ∷ steps) (suc want) (b ∷ queue) v enough held =
    recv_all-complete steps (want - length (piece n want queue))
      (drop (length (piece n want queue)) queue) v (omega arith)
      (omega (arith, length-drop (length (piece n want queue)) queue))

same_split : (a b x y : List ℕ) → length a ≡ length x → a ++ b ≡ x ++ y → (a ≡ x) × (b ≡ y)
same_split [] b [] y l e = (refl, e)
same_split [] b (t ∷ x) y l e = absurd (omega arith)
same_split (s ∷ a) b [] y l e = absurd (omega arith)
same_split (s ∷ a) b (t ∷ x) y l e =
    let head : s ≡ t = cc in
    let tail : a ++ b ≡ x ++ y = cc in
    let rest = same_split a b x y (omega arith) tail in (cc (head, rest.0), rest.1)

-- With enough progress a frame is sent whole.
pub send_all-frame :
    (steps : List Step) (frame : List ℕ)
    → IsWilling steps
    → length frame ≤ moves steps
    → send_all steps frame ≡ (frame, complete)
send_all-frame steps frame willing enough =
    let (rest, whole, ends) = send_all_lem steps frame in
    let v = send_all-complete steps frame willing enough in
    let all : (send_all steps frame).0 ≡ frame =
      sym (whole ∙ ap (λ t. (send_all steps frame).0 ++ t) (ends.0 v) ∙ append-nil _) in
    cc (all, v)

-- With enough progress a frame is received, and what follows stays.
pub recv_all-frame :
    (steps : List Step) (frame later : List ℕ)
    → IsWilling steps
    → length frame ≤ moves steps
    → recv_all steps (length frame) (frame ++ later)
      ≡ record { got = frame; left = later; verdict = complete }
recv_all-frame steps frame later willing enough =
    let r = recv_all steps (length frame) (frame ++ later) in
    let facts = recv_all_lem steps (length frame) (frame ++ later) in
    let v =
      recv_all-complete steps (length frame) (frame ++ later) willing enough
        (omega (arith, length-append frame later)) in
    let (same, rest) = same_split r.got r.left frame later (facts.2.0 v) facts.0 in
    cc (same, rest, v)
