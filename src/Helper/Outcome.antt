-- ===== src/Helper/Outcome.antt =====
-- What a cursor request does to the helper process and to the flags of its context.
use libdrmtap.Prelude.{
  ℕ, zero, suc, ◌+◌, ◌≤◌, ◌≡◌, ◌⊎◌, ◌↔◌, inl, inr, refl, ap, sym, ◌∙◌, arith, Bool, true, false,
  not, Option, none, some, if◌then◌else◌,
}
use libdrmtap.Errno.{Errno, Ret, ok, err, eio}
use libdrmtap.Helper.{
  Env, Helper, CursorReply, Cursor, Result, started_as, spawn_unless, helper_spawn, stop_if,
  helper_stop, resent, resend, send_as, send_cmd, cursor_of, recv_pixels, pixels_as, try_again,
  no_answer, reply_as, sent_as, spawned_as, get_cursor,
}

abbrev pub one_if : Bool → ℕ
one_if true = 1
one_if false = 0

-- Every helper that was started has been stopped, but for the one that runs.
abbrev pub IsTended : Helper → Type 0
IsTended h = h.started ≡ h.stopped + one_if h.running

-- Steps that touch the process only.
abbrev Same : Helper → Helper → Type 0
Same h h' =
    (h'.helper_no_cursor2 ≡ h.helper_no_cursor2)
    × (h'.helper_cursor2_ok ≡ h.helper_cursor2_ok)
    × (h'.helper_cursor2_retried ≡ h.helper_cursor2_retried)

abbrev Tends : Helper → Helper → Type 0
Tends h h' = (IsTended h → IsTended h') × Same h h'

Tends-trans : (a b c : Helper) → Tends a b → Tends b c → Tends a c
Tends-trans a b c (p, q) (r, s) = ((λ v. r (p v)), (s.0 ∙ q.0, s.1 ∙ q.1, s.2 ∙ q.2))

started-Tends : (r : Ret (Unit {0})) (h : Helper) → h.running ≡ false → Tends h (started_as r h).1
started-Tends (err x) h e = ((λ v. v), (refl, refl, refl))
started-Tends (ok _) h e = ((λ v. omega (arith, v, ap one_if e)), (refl, refl, refl))

spawn-Tends : (e : Env) (h : Helper) → Tends h (helper_spawn e h).1
unfolding helper_spawn
spawn-Tends e h = by_running h.running refl
  where
    by_running : (b : Bool) → h.running ≡ b → Tends h (spawn_unless b e h).1
    by_running true r = ((λ v. v), (refl, refl, refl))
    by_running false r = started-Tends (e.spawns h.attempts) h r

stop-Tends : (h : Helper) → Tends h (helper_stop h)
unfolding helper_stop
stop-Tends h = by_running h.running refl
  where
    by_running : (b : Bool) → h.running ≡ b → Tends h (stop_if b h)
    by_running true r = ((λ v. omega (arith, v, ap one_if r)), (refl, refl, refl))
    by_running false r = ((λ v. v), (refl, refl, refl))

resent-Tends : (b : Bool) (h : Helper) → Tends h (resent b h).1
resent-Tends true h = ((λ v. v), (refl, refl, refl))
resent-Tends false h = ((λ v. v), (refl, refl, refl))

resend-Tends : (e : Env) (r : Ret (Unit {0}) × Helper) → Tends r.1 (resend e r).1
resend-Tends e (err x, h) = ((λ v. v), (refl, refl, refl))
resend-Tends e (ok _, h) = resent-Tends (e.sends h.sent) (record h { sent = h.sent + 1 })

fresh-Tends : (e : Env) (h : Helper) → Tends h (helper_spawn e (helper_stop h)).1
fresh-Tends e h =
    Tends-trans h (helper_stop h) (helper_spawn e (helper_stop h)).1 (stop-Tends h)
      (spawn-Tends e (helper_stop h))

send_as-Tends : (b : Bool) (e : Env) (h : Helper) → Tends h (send_as b e h).1
send_as-Tends true e h = ((λ v. v), (refl, refl, refl))
send_as-Tends false e h =
    Tends-trans h (helper_spawn e (helper_stop h)).1 (resend e (helper_spawn e (helper_stop h))).1
      (fresh-Tends e h) (resend-Tends e (helper_spawn e (helper_stop h)))

send-Tends : (e : Env) (h : Helper) → Tends h (send_cmd e h).1
unfolding send_cmd
send-Tends e h = send_as-Tends (e.sends h.sent) e (record h { sent = h.sent + 1 })

-- How a request from `h` may end: it returns; every helper but the running one has been stopped; the
-- command that carries the provenance is given up only for a helper that has never answered it, and
-- after a retry; and a cursor carries a provenance exactly if that command was not given up.
abbrev pub Ends : Helper → Option Result → Type 0
Ends h r =
    (c : Ret Cursor) × (h' : Helper) × (r ≡ some (c, h'))
    × (IsTended h → IsTended h')
    × (h'.helper_no_cursor2 ≡ true
        → (h.helper_no_cursor2 ≡ true)
          ⊎ ((h.helper_cursor2_ok ≡ false) × (h'.helper_cursor2_retried ≡ true)))
    × (h.helper_no_cursor2 ≡ true → h'.helper_no_cursor2 ≡ true)
    × (h.helper_cursor2_retried ≡ true → h'.helper_cursor2_retried ≡ true)
    × ((k : Cursor) → c ≡ ok k → (k.provenance ≡ none) ↔ (h'.helper_no_cursor2 ≡ true))

-- The calls of itself that a request may still make.
abbrev pub calls_left : Helper → ℕ
calls_left h = if h.helper_no_cursor2 then 1 else if h.helper_cursor2_retried then 2 else 3

-- A request that ends with an error, after steps that touch the process only.
failed-Ends : (h h' : Helper) (x : Errno) → Tends h h' → Ends h (some (err x, h'))
failed-Ends h h' x t = (
  err x,
  h',
  refl,
  t.0,
  (λ f. inl (sym t.1.0 ∙ f)),
  (λ f. t.1.0 ∙ f),
  (λ f. t.1.2 ∙ f),
  λ k e. absurd (cc e),
)

-- A request that goes on in a state with the same knowledge of the helper.
goes_on :
    (h h' : Helper) (r : Option Result)
    → (IsTended h → IsTended h')
    → h'.helper_no_cursor2 ≡ h.helper_no_cursor2
    → h'.helper_cursor2_ok ≡ h.helper_cursor2_ok
    → (h.helper_cursor2_retried ≡ true → h'.helper_cursor2_retried ≡ true)
    → Ends h' r
    → Ends h r
goes_on h h' r tend no_same ok_same tried (c, last, e, tended, latched, kept, sticky, provenance) =
    (
      c,
      last,
      e,
      (λ v. tended (tend v)),
      (λ f. given_up (latched f)),
      (λ f. kept (no_same ∙ f)),
      (λ f. sticky (tried f)),
      provenance,
    )
  where
    given_up :
        (h'.helper_no_cursor2 ≡ true)
          ⊎ ((h'.helper_cursor2_ok ≡ false) × (last.helper_cursor2_retried ≡ true))
        → (h.helper_no_cursor2 ≡ true)
          ⊎ ((h.helper_cursor2_ok ≡ false) × (last.helper_cursor2_retried ≡ true))
    given_up (inl f) = inl (sym no_same ∙ f)
    given_up (inr (f, g)) = inr (sym ok_same ∙ f, g)

Tends-Ends : (h h' : Helper) (r : Option Result) → Tends h h' → Ends h' r → Ends h r
Tends-Ends h h' r t = goes_on h h' r t.0 t.1.0 t.1.1 (λ f. t.1.2 ∙ f)

pixels_as-provenance :
    (a b : Bool) (c k : Cursor) → pixels_as a b c ≡ ok k → k.provenance ≡ c.provenance
pixels_as-provenance false b c k e = absurd (cc e)
pixels_as-provenance true false c k e = absurd (cc e)
pixels_as-provenance true true c k e = ap (λ (x : Cursor). x.provenance) (sym (unwrap e))
  where
    unwrap : ok (record c { has_pixels = true }) ≡ ok k → record c { has_pixels = true } ≡ k
    unwrap f = cc f

recv_pixels-provenance :
    (e : Env) (n : ℕ) (w : CursorReply) (c k : Cursor)
    → recv_pixels e n w c ≡ ok k
    → k.provenance ≡ c.provenance
unfolding recv_pixels
recv_pixels-provenance e n w c k f =
    ground (arith, f, pixels_as-provenance (e.allocs n) (e.pixels n) c k)

-- A recursive call that may be made in every state with at most `n` calls left.
abbrev Again : ℕ → (Helper → Option Result) → Type 0
Again n again = (h : Helper) → calls_left h ≤ n → Ends h (again h)

try_again-Ends :
    (n : ℕ) (again : Helper → Option Result) (retried : Bool) (h : Helper)
    (r : Ret (Unit {0}) × Helper)
    → Again n again
    → Tends h r.1
    → h.helper_no_cursor2 ≡ false
    → h.helper_cursor2_ok ≡ false
    → h.helper_cursor2_retried ≡ retried
    → calls_left h ≤ suc n
    → Ends h (try_again again retried r)
try_again-Ends n again retried h (err x, h') a t fresh not_ok e left = failed-Ends h h' eio t
try_again-Ends n again false h (ok _, h') a t fresh not_ok e left =
    goes_on h (record h' { helper_cursor2_retried = true }) _ t.0 t.1.0 t.1.1 (λ f. refl)
      (a (record h' { helper_cursor2_retried = true })
        (ground (arith, t.1.0 ∙ fresh, fresh, e, left)))
try_again-Ends n again true h (ok _, h') a t fresh not_ok e left =
    let (c, last, f, tended, latched, kept, sticky, provenance) =
      a (record h' { helper_no_cursor2 = true }) (ground (arith, fresh, e, left)) in
    (
      c,
      last,
      f,
      (λ v. tended (t.0 v)),
      (λ given_up. inr (not_ok, sticky (t.1.2 ∙ e))),
      (λ given_up. kept refl),
      (λ tried. sticky (t.1.2 ∙ e)),
      provenance,
    )

no_answer-Ends :
    (n : ℕ) (again : Helper → Option Result) (extended known : Bool) (e : Env) (h : Helper)
    → Again n again
    → (not h.helper_no_cursor2) ≡ extended
    → h.helper_cursor2_ok ≡ known
    → calls_left h ≤ suc n
    → Ends h (no_answer again extended known e h)
no_answer-Ends n again true false e h a x k left =
    try_again-Ends n again h.helper_cursor2_retried h (helper_spawn e (helper_stop h)) a
      (fresh-Tends e h) (ground (arith, x)) k refl left
no_answer-Ends n again true true e h a x k left = failed-Ends h h eio ((λ v. v), (refl, refl, refl))
no_answer-Ends n again false true e h a x k left =
    failed-Ends h h eio ((λ v. v), (refl, refl, refl))
no_answer-Ends n again false false e h a x k left =
    failed-Ends h h eio ((λ v. v), (refl, refl, refl))

reply-Ends :
    (n : ℕ) (again : Helper → Option Result) (extended : Bool) (w : Option CursorReply) (e : Env)
    (h : Helper)
    → Again n again
    → (not h.helper_no_cursor2) ≡ extended
    → calls_left h ≤ suc n
    → Ends h (reply_as again extended w e h)
reply-Ends n again extended none e h a x left =
    no_answer-Ends n again extended h.helper_cursor2_ok e h a x refl left
reply-Ends n again true (some w) e h a x left = (
  recv_pixels e h.received w (cursor_of true w),
  record h { helper_cursor2_ok = true },
  refl,
  (λ v. v),
  (λ f. inl f),
  (λ f. f),
  (λ f. f),
  λ k f.
      let p = recv_pixels-provenance e h.received w (cursor_of true w) k f in
      ((λ g. absurd (cc (p, g))), λ g. absurd (cc (x, ap not g))),
)
reply-Ends n again false (some w) e h a x left = (
  recv_pixels e h.received w (cursor_of false w),
  h,
  refl,
  (λ v. v),
  (λ f. inl f),
  (λ f. f),
  (λ f. f),
  λ k f.
      let p = recv_pixels-provenance e h.received w (cursor_of false w) k f in
      ((λ g. ground (arith, x)), λ g. p),
)

sent-Ends :
    (n : ℕ) (again : Helper → Option Result) (e : Env) (h : Helper) (r : Ret (Unit {0}) × Helper)
    → Again n again
    → Tends h r.1
    → calls_left h ≤ suc n
    → Ends h (sent_as again e r)
sent-Ends n again e h (err x, h') a t left = failed-Ends h h' x t
sent-Ends n again e h (ok _, h') a t left =
    let h2 : Helper = record h' { received = h'.received + 1 } in
    Tends-Ends h h2 _ t (
      reply-Ends n again (not h'.helper_no_cursor2) (e.replies h'.received) e h2 a refl
        (ground (arith, t.1.0, t.1.2, left)))

spawned-Ends :
    (n : ℕ) (again : Helper → Option Result) (e : Env) (h : Helper) (r : Ret (Unit {0}) × Helper)
    → Again n again
    → Tends h r.1
    → calls_left h ≤ suc n
    → Ends h (spawned_as again e r)
spawned-Ends n again e h (err x, h') a t left = failed-Ends h h' x t
spawned-Ends n again e h (ok _, h') a t left =
    sent-Ends n again e h (send_cmd e h') a (Tends-trans h h' (send_cmd e h').1 t (send-Tends e h'))
      left

get_cursor-Ends-fuel : (fuel : ℕ) (e : Env) → Again fuel (get_cursor fuel e)
unfolding get_cursor
get_cursor-Ends-fuel zero e h left = absurd (ground (arith, left))
get_cursor-Ends-fuel (suc fuel) e h left =
    spawned-Ends fuel (get_cursor fuel e) e h (helper_spawn e h) (get_cursor-Ends-fuel fuel e)
      (spawn-Tends e h) left

-- A cursor request returns after at most three calls of itself, whatever the system answers: every
-- helper but a running one has then been stopped if it was so before; the extended command is given
-- up only for a helper that had never answered it, and after a retry, and for good; and a cursor
-- that is returned carries a provenance exactly if the command has not been given up.
pub get_cursor-Ends : (e : Env) (h : Helper) → Ends h (get_cursor 3 e h)
get_cursor-Ends e h = get_cursor-Ends-fuel 3 e h (ground arith)
