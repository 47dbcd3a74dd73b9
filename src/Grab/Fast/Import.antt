-- ===== src/Grab/Fast/Import.antt =====
-- The cache miss of drmtap_grab_mapped_fast in src/drm_grab.c: a framebuffer is imported, mapped and
-- stored in a slot, or read through EGL.
use libdrmtap.Prelude.{
  ℕ, ◌+◌, ◌*◌, Bool, ◌||◌, not, true, false, ◌==◌, if◌then◌else◌, Option, none, some, List, [], ◌∷◌,
  ◌++◌, set,
}
use libdrmtap.Errno.{Ret, ok, err, eacces, eio, enomem, and_then}
use libdrmtap.Grab.Geometry.{validate_fb_dims, validate_fb_size}
use libdrmtap.Grab.Scanout.{scanout_width}
use libdrmtap.Grab.Fast.{
  null, mapped, Slot, Event, get_fb2, export_fd, map_at, sync_start, sync_refused, sync_end, unmap,
  close_fd, gem_close, Planes, gem_due, is_set,
}
use libdrmtap.Grab.Fast.Frame.{
  Fb2, fb2_effective_modifier, Frame, Answers, FastCtx, Outcome, after, cleanup_ctx, deliver,
  slot_frame,
}

-- close_auxiliary_gem_handles: each handle of planes 1 to 3 once, and never that of plane 0.
abbrev pub among : ℕ → List ℕ → Bool
among h [] = false
among h (g ∷ gs) = (g == h) || among h gs

unfoldable pub close_auxiliary : ℕ → List ℕ → List ℕ → List Event
close_auxiliary first earlier [] = []
close_auxiliary first earlier (h ∷ hs) =
    let rest = close_auxiliary first (h ∷ earlier) hs in
    if (h == 0) || (h == first) then rest else if among h earlier then rest else gem_close h ∷ rest

-- The plane count of ctx->fb2_num_planes: one past the last plane with a handle or a pitch.
unfoldable pub count_planes : ℕ → List ℕ → List ℕ → ℕ → ℕ
count_planes p (h ∷ hs) (q ∷ qs) n =
    count_planes (p + 1) hs qs (if not (h == 0) || not (q == 0) then p + 1 else n)
count_planes p hs qs n = n

abbrev pub staged : Fb2 → Planes
staged f = record {
  num_planes = count_planes 0 (f.handle ∷ f.aux_handles) (f.pitch ∷ f.aux_pitches) 0;
  pitches = f.pitch ∷ f.aux_pitches;
  offsets = f.offsets;
}

-- The new slot as stored.
abbrev pub new_slot : Fb2 → ℕ → ℕ → ℕ → ℕ → Bool → Planes → Slot
new_slot f fb_id fd p width started planes = record {
  fb_id = fb_id;
  gem_handle = f.handle;
  prime_fd = some fd;
  mmap_ptr = mapped p;
  mmap_size = f.pitch * f.height;
  width = width;
  height = f.height;
  stride = f.pitch;
  fb_width = f.width;
  format = f.pixel_format;
  modifier = fb2_effective_modifier f.modifier;
  num_planes = planes.num_planes;
  pitches = planes.pitches;
  offsets = planes.offsets;
  sync_started = started;
}

-- Stores a mapped buffer in slot `i`, with the window that its START opened, and delivers it.
unfoldable pub store : Answers → Fb2 → ℕ → ℕ → ℕ → Bool → ℕ → FastCtx → Outcome
store a f fb_id fd p started i c =
    let (width, memo) =
      scanout_width c.memo a.mode a.rect f.width (fb2_effective_modifier f.modifier) in
    let s = new_slot f fb_id fd p width started c.planes in
    deliver a (slot_frame s)
      (record c { slots = set c.slots i s; fast_last_fb_id = fb_id; memo = memo })

-- The descriptor and handle of a buffer that is not cached are given back, its window first.
abbrev pub give_back : Bool → ℕ → ℕ → List Event
give_back started fd h = (if started then sync_end fd ∷ [] else []) ++ (close_fd fd ∷ gem_due h)

-- A buffer that cannot be mapped is read through EGL, if there is EGL.
abbrev pub egl_result : Ret Frame → FastCtx → Ret Frame × FastCtx
egl_result (err e) c = (err e, c)
egl_result (ok f) c =
    if is_set f.data_ptr
    then (ok (record f { dma_buf_fd = none }), record c { grab_plane_id = c.fast_plane_id })
    else (err eio, c)

abbrev pub read_by_egl : Bool → Answers → Fb2 → ℕ → ℕ → FastCtx → Ret Frame × FastCtx
read_by_egl false a f fb_id fd c = (err enomem, c)
read_by_egl true a f fb_id fd c =
    let (width, memo) =
      scanout_width c.memo a.mode a.rect f.width (fb2_effective_modifier f.modifier) in
    let frame : Frame = record {
      data_ptr = null;
      dma_buf_fd = some fd;
      width = width;
      height = f.height;
      stride = f.pitch;
      format = f.pixel_format;
      modifier = fb2_effective_modifier f.modifier;
      fb_id = fb_id;
    } in
    egl_result (a.process frame) (record c { fast_last_fb_id = 0; memo = memo })

unfoldable pub unmappable : Answers → Fb2 → ℕ → ℕ → Bool → FastCtx → Outcome
unmappable a f fb_id fd started c =
    let (r, c') = read_by_egl a.egl a f fb_id fd c in (give_back started fd f.handle, r, c')

-- mmap after a SYNC_START, which the mapping needs; the test hook may drop it again.
abbrev pub start_event : Bool → ℕ → Event
start_event true fd = sync_start fd
start_event false fd = sync_refused fd

abbrev pub cpu_mapping : Option ℕ → Bool → ℕ → List Event × Option ℕ
cpu_mapping none forced size = ([], none)
cpu_mapping (some p) false size = (map_at p size ∷ [], some p)
cpu_mapping (some p) true size = (map_at p size ∷ unmap p size ∷ [], none)

abbrev pub or_unmappable : Answers → Fb2 → ℕ → ℕ → ℕ → FastCtx → Option ℕ → Outcome
or_unmappable a f fb_id fd i c (some p) = store a f fb_id fd p a.granted i c
or_unmappable a f fb_id fd i c none =
    unmappable a f fb_id fd a.granted (record c { fast_no_cpu_map = true })

-- A context that has learned that scanouts cannot be mapped does not try again.
abbrev pub cpu_map_unless : Bool → Answers → Fb2 → ℕ → ℕ → ℕ → FastCtx → Outcome
cpu_map_unless true a f fb_id fd i c = unmappable a f fb_id fd false c
cpu_map_unless false a f fb_id fd i c =
    let (es, m) = cpu_mapping a.cpu_map a.forced (f.pitch * f.height) in
    after (start_event a.granted fd ∷ es) (or_unmappable a f fb_id fd i c m)

unfoldable pub cpu_map_fb : Answers → Fb2 → ℕ → ℕ → ℕ → FastCtx → Outcome
cpu_map_fb a f fb_id fd i c = cpu_map_unless c.fast_no_cpu_map a f fb_id fd i c

-- The virtio mapping, tried first where the transfer succeeded.
abbrev pub dumb_mapping : Bool → Ret (Unit {0}) → Option ℕ → Option ℕ
dumb_mapping true (ok _) m = m
dumb_mapping true (err e) m = none
dumb_mapping false t m = none

abbrev pub map_or : Option ℕ → Answers → Fb2 → ℕ → ℕ → ℕ → FastCtx → Outcome
map_or none a f fb_id fd i c = cpu_map_fb a f fb_id fd i c
map_or (some p) a f fb_id fd i c =
    after (map_at p (f.pitch * f.height) ∷ []) (store a f fb_id fd p false i c)

unfoldable pub map_fb : Answers → Fb2 → ℕ → ℕ → ℕ → FastCtx → Outcome
map_fb a f fb_id fd i c = map_or (dumb_mapping a.virtio a.transfer a.dumb_map) a f fb_id fd i c

abbrev pub exported_as : Ret ℕ → Answers → Fb2 → ℕ → ℕ → FastCtx → Outcome
exported_as (err e) a f fb_id i c = (gem_due f.handle, err e, c)
exported_as (ok fd) a f fb_id i c = after (export_fd fd ∷ []) (map_fb a f fb_id fd i c)

unfoldable pub export_fb : Answers → Fb2 → ℕ → ℕ → FastCtx → Outcome
export_fb a f fb_id i c = exported_as a.exported a f fb_id i c

abbrev pub refuse_unprivileged : FastCtx → Outcome
refuse_unprivileged c =
    let (es, c') = cleanup_ctx (record c { fast_no_privilege = true }) in (es, err eacces, c')

-- A framebuffer seen for the first time, to go to slot `i`: its plane layout is staged once its
-- geometry has been accepted.
abbrev pub accepted : Ret (Unit {0}) → Answers → Fb2 → ℕ → ℕ → FastCtx → Outcome
accepted (err e) a f fb_id i c = (gem_due f.handle, err e, c)
accepted (ok _) a f fb_id i c = export_fb a f fb_id i (record c { planes = staged f })

abbrev pub check_geometry : Fb2 → Ret (Unit {0})
check_geometry f =
    and_then (validate_fb_dims 64 f.width f.height) (λ _. validate_fb_size f.pitch f.height)

unfoldable pub import_fb : Answers → Fb2 → ℕ → ℕ → FastCtx → Outcome
import_fb a f fb_id i c =
    if f.handle == 0 then refuse_unprivileged c else accepted (check_geometry f) a f fb_id i c

abbrev pub imported : Ret Fb2 → Answers → ℕ → ℕ → FastCtx → Outcome
imported (err e) a fb_id i c = ([], err e, c)
imported (ok f) a fb_id i c =
    after (get_fb2 f.handle f.aux_handles ∷ close_auxiliary f.handle [] f.aux_handles)
      (import_fb a f fb_id i c)

unfoldable pub miss : Answers → ℕ → ℕ → FastCtx → Outcome
miss a fb_id i c = imported a.fb2 a fb_id i c
