-- ===== src/Grab/Fast/Runs.antt =====
-- A context from its first frame to its teardown.
use libdrmtap.Prelude.{ℕ, ◌+◌, ◌≡◌, List, [], ◌∷◌, ◌++◌, arith, subst, sym, ap}
use libdrmtap.Grab.Fast.{fast_cleanup}
use libdrmtap.Grab.Fast.Frame.{Answers, FastCtx, cleanup_ctx}
use libdrmtap.Grab.Fast.Call.{fresh_slots, grab_mapped_fast, grab_all}
use libdrmtap.Grab.Fast.Ledger.{
  Resource, held, total, total-append, granted, returned, Balanced, Balanced-append,
  cleanup-Balanced,
}
use libdrmtap.Grab.Fast.Slots.{IsSlots, fresh-IsSlots, cleanup-fresh}
use libdrmtap.Grab.Fast.Conserved.{IsCtx}
use libdrmtap.Grab.Fast.Conserved.Call.{grab-Keeps}

run-Keeps :
    (w : Resource → ℕ) (calls : List Answers) (c : FastCtx)
    → IsCtx c.slots c.fast_initialized
    → let (log, c') = grab_all calls c in
      Balanced w (held w c.slots) log (held w c'.slots) × IsCtx c'.slots c'.fast_initialized
unfolding grab_all
run-Keeps w [] c v = (omega arith, v)
run-Keeps w (a ∷ calls) c v =
    let first = grab-Keeps w a c v in
    let (es, r, c') = grab_mapped_fast a c in
    let rest = run-Keeps w calls c' first.ctx in
    (Balanced-append w (held w c.slots) (held w c'.slots) _ es _ first.balanced rest.0, rest.1)

opened : (c : FastCtx) → c.slots ≡ fresh_slots → IsCtx c.slots c.fast_initialized
opened c e = record { slots = subst IsSlots (sym e) fresh-IsSlots; fresh = λ f. e }

-- From a context whose slots are empty, and after any calls with any answers of the kernel, what
-- the kernel granted of each resource is what was given back to it and what the slots hold: no
-- handle, descriptor, mapping or CPU-access window is lost or given back twice.
pub run-Conserved :
    (w : Resource → ℕ) (calls : List Answers) (c : FastCtx)
    → c.slots ≡ fresh_slots
    → let (log, c') = grab_all calls c in
      total (granted w) log ≡ total (returned w) log + held w c'.slots
run-Conserved w calls c e = omega (arith, (run-Keeps w calls c (opened c e)).0, ap (held w) e)

-- The teardown then gives back all that is left: over the life of the context, as much of each
-- resource is given back as was granted, and no slot holds anything.
pub teardown-Conserved :
    (w : Resource → ℕ) (calls : List Answers) (c : FastCtx)
    → c.slots ≡ fresh_slots
    → let (log, c') = grab_all calls c in
      let (last, c'') = cleanup_ctx c' in
      (total (granted w) (log ++ last) ≡ total (returned w) (log ++ last))
      × (c''.slots ≡ fresh_slots)
unfolding cleanup_ctx
teardown-Conserved w calls c e =
    let run = run-Keeps w calls c (opened c e) in
    let (log, c') = grab_all calls c in
    let gone = cleanup-fresh c'.slots run.1.slots in
    (
      omega (
        arith,
        run.0,
        cleanup-Balanced w c'.slots,
        ap (held w) e,
        ap (held w) gone,
        total-append (granted w) log (fast_cleanup c'.slots).0,
        total-append (returned w) log (fast_cleanup c'.slots).0,
      ),
      gone,
    )

-- At any time there are four slots, each is empty or a mapped buffer, and at most one has a
-- CPU-access window open.
pub grab_all-IsSlots :
    (calls : List Answers) (c : FastCtx)
    → c.slots ≡ fresh_slots
    → IsSlots (grab_all calls c).1.slots
grab_all-IsSlots calls c e = (run-Keeps (λ r. 0) calls c (opened c e)).1.slots
