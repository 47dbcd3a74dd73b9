-- ===== src/Grab/Fast/Conserved/Call.antt =====
-- The same of a whole call, on every exit.
use libdrmtap.Prelude.{
  ℕ, zero, suc, ◌<◌, ◌≡◌, Bool, ◌&&◌, true, false, ◌==◌, Option, none, some, [], arith, refl, ap,
  inl, inr, Bool-cases,
}
use libdrmtap.Errno.{err, enodev}
use libdrmtap.Grab.Fast.{fast_sync_close, find_or_alloc_slot, is_set}
use libdrmtap.Grab.Fast.Frame.{Answers, FastCtx, slot_at}
use libdrmtap.Grab.Fast.Import.{miss}
use libdrmtap.Grab.Fast.Call.{
  hit_or_miss, hit_or_lookup, refreshed, admitted, lookup, capture, refresh, fresh_slots,
  initialise, grab_mapped_fast,
}
use libdrmtap.Grab.Fast.Ledger.{Resource, close-AllClosed, held, close-Balanced}
use libdrmtap.Grab.Fast.Slots.{close-IsSlots, fresh-IsSlots}
use libdrmtap.Grab.Fast.Find.{find-Found, vacant}
use libdrmtap.Grab.Fast.Conserved.{
  IsCtx, Ready, after-Keeps, quiet-Keeps, hit-Keeps, cleanup-Keeps, Keeps,
}
use libdrmtap.Grab.Fast.Conserved.Import.{imported-Keeps}

module _ (w : Resource → ℕ) where
  hit_or_miss-Keeps :
      (found : Bool) (a : Answers) (fb_id i : ℕ) (c : FastCtx)
      → 0 < fb_id
      → IsCtx c.slots c.fast_initialized
      → (found ≡ false → Ready i c.slots c.fast_initialized)
      → c.fast_initialized ≡ true
      → Keeps w (held w c.slots) (hit_or_miss found a fb_id i c)
  unfolding miss
  hit_or_miss-Keeps true a fb_id i c pos v r init = hit-Keeps w a i fb_id c v init
  hit_or_miss-Keeps false a fb_id i c pos v r init =
      imported-Keeps w a.fb2 a fb_id i c pos (r refl) init

  lookup-Keeps :
      (a : Answers) (fb_id : ℕ) (c : FastCtx)
      → 0 < fb_id
      → IsCtx c.slots c.fast_initialized
      → c.fast_initialized ≡ true
      → Keeps w (held w c.slots) (lookup a fb_id c)
  unfolding lookup
  lookup-Keeps a fb_id c pos v init =
      let closed = fast_sync_close c.slots in
      let r = find_or_alloc_slot fb_id closed.1 in
      let found =
        find-Found fb_id closed.1 (close-IsSlots c.slots v.slots) (close-AllClosed c.slots) in
      let ctx : IsCtx r.2 c.fast_initialized = record {
        slots = found.slots;
        fresh = λ e. absurd (cc (init, e));
      } in
      after-Keeps w (held w c.slots) (held w closed.1) closed.0 _ (close-Balanced w c.slots) (
        after-Keeps w (held w closed.1) (held w r.2) r.1 _ (found.balanced w) (
          hit_or_miss-Keeps
            (((slot_at r.0 r.2).fb_id == fb_id) && is_set (slot_at r.0 r.2).mmap_ptr) a fb_id r.0
            (record c { slots = r.2 }) pos ctx
            (λ missed. record {
              ctx = ctx;
              closed = found.closed;
              in_range = found.in_range;
              empty = vacant fb_id (slot_at r.0 r.2) pos (found.slots.each r.0) found.usable missed;
            })
            init))

  hit_or_lookup-Keeps :
      (found : Option ℕ) (a : Answers) (fb_id : ℕ) (c : FastCtx)
      → 0 < fb_id
      → IsCtx c.slots c.fast_initialized
      → c.fast_initialized ≡ true
      → Keeps w (held w c.slots) (hit_or_lookup found a fb_id c)
  hit_or_lookup-Keeps none a fb_id c pos v init = lookup-Keeps a fb_id c pos v init
  hit_or_lookup-Keeps (some i) a fb_id c pos v init = hit-Keeps w a i fb_id c v init

  refreshed-Keeps :
      (fb : Option ℕ) (a : Answers) (c : FastCtx)
      → IsCtx c.slots c.fast_initialized
      → c.fast_initialized ≡ true
      → Keeps w (held w c.slots) (refreshed fb a c)
  unfolding capture
  refreshed-Keeps none a c v init = cleanup-Keeps w (err enodev) c v
  refreshed-Keeps (some zero) a c v init = cleanup-Keeps w (err enodev) c v
  refreshed-Keeps (some (suc n)) a c v init = hit_or_lookup-Keeps _ a (suc n) c (omega arith) v init

  initialise-Keeps :
      (a : Answers) (c : FastCtx)
      → IsCtx c.slots c.fast_initialized
      → c.fast_initialized ≡ false
      → Keeps w (held w c.slots) (initialise a c)
  unfolding initialise refresh
  initialise-Keeps a c v init = elim (Bool-cases (a.primary_plane == 0)) [
    | inl no_plane ↦ rw no_plane (quiet-Keeps w _ (record c { fast_plane_id = 0 }) v)
    | inr plane ↦ rw plane (
        after-Keeps w _ (held w fresh_slots) [] _ (omega (arith, ap (held w) (v.fresh init))) (
          refreshed-Keeps a.plane_fb a _ (record { slots = fresh-IsSlots; fresh = λ e. refl })
            refl))
  ]

  admitted-Keeps :
      (render_only no_privilege initialized : Bool) (a : Answers) (c : FastCtx)
      → IsCtx c.slots c.fast_initialized
      → c.fast_initialized ≡ initialized
      → Keeps w (held w c.slots) (admitted render_only no_privilege initialized a c)
  unfolding refresh
  admitted-Keeps true p i a c v e = quiet-Keeps w _ c v
  admitted-Keeps false true i a c v e = quiet-Keeps w _ c v
  admitted-Keeps false false true a c v e = refreshed-Keeps a.plane_fb a c v e
  admitted-Keeps false false false a c v e = initialise-Keeps a c v e

  -- One call, on every exit.
  pub grab-Keeps :
      (a : Answers) (c : FastCtx)
      → IsCtx c.slots c.fast_initialized
      → Keeps w (held w c.slots) (grab_mapped_fast a c)
  unfolding grab_mapped_fast
  grab-Keeps a c v =
      admitted-Keeps c.is_render_only c.fast_no_privilege c.fast_initialized a c v refl
