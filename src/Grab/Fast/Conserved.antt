-- ===== src/Grab/Fast/Conserved.antt =====
-- No call of the fast path loses a resource or gives it back twice: frames from a cached slot.
pub mod Import
pub mod Call
use libdrmtap.Prelude.{
  ℕ, zero, suc, ◌+◌, ◌*◌, ◌≤◌, ◌<◌, ◌≡◌, ◌⊎◌, Bool, ◌&&◌, true, false, ◌==◌, if◌then◌else◌, Option,
  none, some, List, [], ◌∷◌, ◌++◌, arith, refl, sym, subst, ◌∙◌, ap, set, length, inl, inr,
  Bool-cases, Option-cases,
}
use libdrmtap.Errno.{Errno, Ret, ok, err, enodev, eacces, Ret-cases, and_then}
use libdrmtap.Grab.Geometry.{validate_fb_dims, validate_fb_size}
use libdrmtap.Grab.Scanout.{scanout_width}
use libdrmtap.Grab.Fast.{
  Mapping, null, failed, mapped, Slot, empty_slot, Event, sync_end, close_fd, fast_sync_close,
  fast_sync_begin, fast_cleanup, find_or_alloc_slot, is_set, cached_at, gem_due,
  fast_slot_restage_planes, sync_start, sync_refused, unmap, map_at, get_fb2, export_fd,
}
use libdrmtap.Grab.Fast.Frame.{
  Fb2, Frame, Answers, FastCtx, Outcome, after, cleanup_ctx, deliver, delivered, resync, hit_after,
  slot_frame, slot_at, serve, hit, fb2_effective_modifier,
}
use libdrmtap.Grab.Fast.Import.{
  read_by_egl, cpu_map_unless, map_or, exported_as, accepted, check_geometry, imported, new_slot,
  store, give_back, egl_result, unmappable, start_event, cpu_mapping, or_unmappable, cpu_map_fb,
  dumb_mapping, map_fb, export_fb, refuse_unprivileged, import_fb, miss, staged, close_auxiliary,
}
use libdrmtap.Grab.Fast.Call.{
  hit_or_miss, hit_or_lookup, refreshed, admitted, lookup, capture, gone, refresh, fresh_slots,
  initialise, grab_mapped_fast,
}
use libdrmtap.Grab.Fast.Ledger.{
  Resource, descriptor, mapping, AllClosed, close-AllClosed, held, owned, gem_weight, window_weight,
  total, total-append, granted, returned, Balanced, Balanced-append, close-Balanced, begin-Balanced,
  cleanup-Balanced, set-held, fb2-Balanced, gem_due-weight,
}
use libdrmtap.Grab.Fast.Slots.{
  IsSlots, close-IsSlots, begin-IsSlots, cleanup-fresh, fresh-IsSlots, set-IsSlots,
}
use libdrmtap.Grab.Fast.Find.{Found, find-Found, vacant}

-- The slots of a context; before the first frame they are empty.
pub record IsCtx (ss : List Slot) (initialized : Bool) : Type 0 where
  pub slots : IsSlots ss
  pub fresh : initialized ≡ false → ss ≡ fresh_slots

-- Slot `i` waits for a new buffer.
pub record Ready (i : ℕ) (ss : List Slot) (initialized : Bool) : Type 0 where
  pub ctx : IsCtx ss initialized
  pub closed : AllClosed ss
  pub in_range : i < length ss
  pub empty : slot_at i ss ≡ empty_slot

module _ (w : Resource → ℕ) where
  -- A call that began with `n` held, in the slots and in its own hands.
  pub record Keeps (n : ℕ) (o : Outcome) : Type 0 where
    pub balanced : Balanced w n o.0 (held w o.2.slots)
    pub ctx : IsCtx o.2.slots o.2.fast_initialized

  pub after-Keeps :
      (n m : ℕ) (es : List Event) (o : Outcome)
      → Balanced w n es m
      → Keeps m o
      → Keeps n (after es o)
  after-Keeps n m es o p k = record {
    balanced = Balanced-append w n m _ es o.0 p k.balanced;
    ctx = k.ctx;
  }

  pub delivered-Keeps :
      (r : Ret Frame) (c : FastCtx)
      → IsCtx c.slots c.fast_initialized
      → Keeps (held w c.slots) (delivered r c)
  delivered-Keeps (ok f) c v = record { balanced = omega arith; ctx = v }
  delivered-Keeps (err e) c v = record { balanced = omega arith; ctx = v }

  pub resync-Keeps :
      (virtio granted : Bool) (i : ℕ) (ss : List Slot)
      → IsSlots ss
      → let (es, ss') = resync virtio granted i ss in
        Balanced w (held w ss) es (held w ss') × IsSlots ss'
  resync-Keeps true granted i ss v = (close-Balanced w ss, close-IsSlots ss v)
  resync-Keeps false granted i ss v = (begin-Balanced w granted i ss, begin-IsSlots granted i ss v)

  pub serve-Keeps :
      (a : Answers) (i fb_id : ℕ) (c : FastCtx)
      → IsCtx c.slots c.fast_initialized
      → c.fast_initialized ≡ true
      → Keeps (held w c.slots) (serve a i fb_id c)
  unfolding serve deliver
  serve-Keeps a i fb_id c v init =
      let synced = resync a.virtio a.granted i c.slots in
      let s = slot_at i c.slots in
      let kept = resync-Keeps a.virtio a.granted i c.slots v.slots in
      after-Keeps (held w c.slots) (held w synced.1) synced.0 _ kept.0 (
        delivered-Keeps (a.process (slot_frame s))
          (record c {
            slots = synced.1;
            fast_last_fb_id = fb_id;
            planes = fast_slot_restage_planes s;
          })
          (record { slots = kept.1; fresh = λ e. absurd (cc (init, e)) }))

  pub quiet-Keeps :
      (r : Ret Frame) (c : FastCtx)
      → IsCtx c.slots c.fast_initialized
      → Keeps (held w c.slots) ([], r, c)
  quiet-Keeps r c v = record { balanced = omega arith; ctx = v }

  pub hit_after-Keeps :
      (virtio : Bool) (t : Ret (Unit {0})) (a : Answers) (i fb_id : ℕ) (c : FastCtx)
      → IsCtx c.slots c.fast_initialized
      → c.fast_initialized ≡ true
      → Keeps (held w c.slots) (hit_after virtio t a i fb_id c)
  hit_after-Keeps false t a i fb_id c v init = serve-Keeps a i fb_id c v init
  hit_after-Keeps true (ok _) a i fb_id c v init = serve-Keeps a i fb_id c v init
  hit_after-Keeps true (err e) a i fb_id c v init = quiet-Keeps (err e) c v

  pub hit-Keeps :
      (a : Answers) (i fb_id : ℕ) (c : FastCtx)
      → IsCtx c.slots c.fast_initialized
      → c.fast_initialized ≡ true
      → Keeps (held w c.slots) (hit a i fb_id c)
  unfolding hit
  hit-Keeps a i fb_id c v init = hit_after-Keeps a.virtio a.transfer a i fb_id c v init

  pub cleanup-Keeps :
      (r : Ret Frame) (c : FastCtx)
      → IsCtx c.slots c.fast_initialized
      → let (es, c') = cleanup_ctx c in Keeps (held w c.slots) (es, r, c')
  unfolding cleanup_ctx
  cleanup-Keeps r c v =
      let fresh = cleanup-fresh c.slots v.slots in
      record {
        balanced = cleanup-Balanced w c.slots;
        ctx = record { slots = subst IsSlots (sym fresh) fresh-IsSlots; fresh = λ e. fresh };
      }
