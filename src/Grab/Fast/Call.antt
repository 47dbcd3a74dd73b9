-- ===== src/Grab/Fast/Call.antt =====
-- drmtap_grab_mapped_fast of src/drm_grab.c: one frame of the fast path, on every exit.
use libdrmtap.Prelude.{
  ℕ, zero, suc, Bool, ◌&&◌, true, false, ◌==◌, if◌then◌else◌, Option, none, some, List, [], ◌∷◌,
  ◌++◌,
}
use libdrmtap.Errno.{err, enotsup, eacces, enodev}
use libdrmtap.Grab.Fast.{
  Slot, empty_slot, Event, fast_sync_close, find_or_alloc_slot, cached_at, is_set,
}
use libdrmtap.Grab.Fast.Frame.{Answers, FastCtx, Outcome, after, cleanup_ctx, slot_at, hit}
use libdrmtap.Grab.Fast.Import.{miss}

abbrev pub hit_or_miss : Bool → Answers → ℕ → ℕ → FastCtx → Outcome
hit_or_miss true a fb_id i c = hit a i fb_id c
hit_or_miss false a fb_id i c = miss a fb_id i c

-- Step 4: all windows are closed, and a slot is found.
unfoldable pub lookup : Answers → ℕ → FastCtx → Outcome
lookup a fb_id c =
    let (closed, ss) = fast_sync_close c.slots in
    let (i, evicted, ss') = find_or_alloc_slot fb_id ss in
    let s = slot_at i ss' in
    after closed (
      after evicted (
        hit_or_miss ((s.fb_id == fb_id) && is_set s.mmap_ptr) a fb_id i (record c { slots = ss' })))

abbrev pub hit_or_lookup : Option ℕ → Answers → ℕ → FastCtx → Outcome
hit_or_lookup none a fb_id c = lookup a fb_id c
hit_or_lookup (some i) a fb_id c = hit a i fb_id c

-- Step 3: an unchanged fb_id is served from its slot.
unfoldable pub capture : Answers → ℕ → FastCtx → Outcome
capture a fb_id c =
    let found = cached_at fb_id 0 c.slots in
    hit_or_lookup (if fb_id == c.fast_last_fb_id then found else none) a fb_id c

-- Step 2: the plane's framebuffer; without one everything is released.
abbrev pub gone : FastCtx → Outcome
gone c = let (es, c') = cleanup_ctx c in (es, err enodev, c')

abbrev pub refreshed : Option ℕ → Answers → FastCtx → Outcome
refreshed none a c = gone c
refreshed (some zero) a c = gone c
refreshed (some (suc n)) a c = capture a (suc n) c

unfoldable pub refresh : Answers → FastCtx → Outcome
refresh a c = refreshed a.plane_fb a c

abbrev pub fresh_slots : List Slot
fresh_slots = empty_slot ∷ empty_slot ∷ empty_slot ∷ empty_slot ∷ []

-- Step 1: the plane is found and the slots are cleared on the first call only.
unfoldable pub initialise : Answers → FastCtx → Outcome
initialise a c =
    if a.primary_plane == 0
    then ([], err enodev, record c { fast_plane_id = 0 })
    else refresh a (record c {
      fast_plane_id = a.primary_plane;
      slots = fresh_slots;
      fast_last_fb_id = 0;
      fast_no_cpu_map = false;
      fast_initialized = true;
    })

abbrev pub admitted : Bool → Bool → Bool → Answers → FastCtx → Outcome
admitted true no_privilege initialized a c = ([], err enotsup, c)
admitted false true initialized a c = ([], err eacces, c)
admitted false false true a c = refresh a c
admitted false false false a c = initialise a c

unfoldable pub grab_mapped_fast : Answers → FastCtx → Outcome
grab_mapped_fast a c = admitted c.is_render_only c.fast_no_privilege c.fast_initialized a c

-- The calls that a client makes on one context, in order.
unfoldable pub grab_all : List Answers → FastCtx → List Event × FastCtx
grab_all [] c = ([], c)
grab_all (a ∷ later) c =
    let (es, r, c') = grab_mapped_fast a c in let (fs, c'') = grab_all later c' in (es ++ fs, c'')
