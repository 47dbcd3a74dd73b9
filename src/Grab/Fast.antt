-- ===== src/Grab/Fast.antt =====
-- The buffer slots of the fast capture path in src/drm_grab.c. Each function returns the system
-- calls that it makes, in order, beside the new slots.
pub mod Frame
pub mod Import
pub mod Call
pub mod Ledger
pub mod Slots
pub mod Find
pub mod Conserved
pub mod Runs
use libdrmtap.Prelude.{
  ℕ, zero, suc, ◌+◌, Bool, ◌&&◌, not, true, false, ◌==◌, if◌then◌else◌, Option, none, some, List,
  [], ◌∷◌, ◌++◌, set, get_elem?,
}

-- A mapping pointer: NULL, MAP_FAILED, or an address.
pub data Mapping : Type 0 where
  null failed : Mapping
  mapped : ℕ → Mapping

-- ctx->fast_slots[i]; `none` as prime_fd is -1.
pub record Slot : Type 0 where
  pub fb_id : ℕ
  pub gem_handle : ℕ
  pub prime_fd : Option ℕ
  pub mmap_ptr : Mapping
  pub mmap_size : ℕ
  pub width : ℕ
  pub height : ℕ
  pub stride : ℕ
  pub fb_width : ℕ
  pub format : ℕ
  pub modifier : ℕ
  pub num_planes : ℕ
  pub pitches : List ℕ
  pub offsets : List ℕ
  pub sync_started : Bool

-- memset to 0, then prime_fd = -1
abbrev pub empty_slot : Slot
empty_slot = record {
  fb_id = 0;
  gem_handle = 0;
  prime_fd = none;
  mmap_ptr = null;
  mmap_size = 0;
  width = 0;
  height = 0;
  stride = 0;
  fb_width = 0;
  format = 0;
  modifier = 0;
  num_planes = 0;
  pitches = 0 ∷ 0 ∷ 0 ∷ 0 ∷ [];
  offsets = 0 ∷ 0 ∷ 0 ∷ 0 ∷ [];
  sync_started = false;
}

-- What the kernel is asked for and what it granted: the handles of drmModeGetFB2, descriptors,
-- mappings, and CPU-access windows; a descriptor that the helper sent; and the private state of a
-- frame on the heap.
pub data Event : Type 0 where
  get_fb2 : ℕ → List ℕ → Event
  export_fd : ℕ → Event
  map_at : ℕ → ℕ → Event
  sync_start : ℕ → Event
  sync_refused : ℕ → Event
  sync_end : ℕ → Event
  unmap : ℕ → ℕ → Event
  close_fd : ℕ → Event
  gem_close : ℕ → Event
  receive_fd : ℕ → Event
  alloc_priv free_priv : Event

-- The END that a slot owes, if any.
abbrev pub end_due : Bool → Option ℕ → List Event
end_due true (some fd) = sync_end fd ∷ []
end_due true none = []
end_due false fd = []

-- fast_sync_close: every open window is ended.
unfoldable pub fast_sync_close : List Slot → List Event × List Slot
fast_sync_close [] = ([], [])
fast_sync_close (s ∷ ss) =
    let (es, rest) = fast_sync_close ss in
    (end_due s.sync_started s.prime_fd ++ es, record s { sync_started = false } ∷ rest)

-- dmabuf_sync_start on a descriptor, which the kernel grants or not.
abbrev pub start_at : Bool → Option ℕ → Slot → List Event × Slot
start_at true (some fd) s = (sync_start fd ∷ [], record s { sync_started = true })
start_at false (some fd) s = (sync_refused fd ∷ [], record s { sync_started = false })
start_at granted none s = ([], s)

-- Opens the window of the slot at an index.
unfoldable pub open_at : Bool → ℕ → List Slot → List Event × List Slot
open_at granted i [] = ([], [])
open_at granted zero (s ∷ ss) = let (es, s') = start_at granted s.prime_fd s in (es, s' ∷ ss)
open_at granted (suc i) (s ∷ ss) = let (es, rest) = open_at granted i ss in (es, s ∷ rest)

-- fast_sync_begin: all windows are closed before the one of slot `i` is opened.
unfoldable pub fast_sync_begin : Bool → ℕ → List Slot → List Event × List Slot
fast_sync_begin granted i ss =
    let (closed, ss') = fast_sync_close ss in
    let (opened, ss'') = open_at granted i ss' in (closed ++ opened, ss'')

abbrev pub unmap_due : Mapping → ℕ → List Event
unmap_due null size = []
unmap_due failed size = []
unmap_due (mapped p) size = unmap p size ∷ []

abbrev pub close_due : Option ℕ → List Event
close_due none = []
close_due (some fd) = close_fd fd ∷ []

-- drmtap_gem_close does nothing for handle 0.
abbrev pub gem_due : ℕ → List Event
gem_due h = if h == 0 then [] else gem_close h ∷ []

-- Unmap, close and forget one slot.
unfoldable pub release_slot : Slot → List Event
release_slot s = unmap_due s.mmap_ptr s.mmap_size ++ (close_due s.prime_fd ++ gem_due s.gem_handle)

unfoldable pub release_all : List Slot → List Event × List Slot
release_all [] = ([], [])
release_all (s ∷ ss) = let (es, rest) = release_all ss in (release_slot s ++ es, empty_slot ∷ rest)

-- drmtap_fast_cleanup, as far as the slots go.
unfoldable pub fast_cleanup : List Slot → List Event × List Slot
fast_cleanup ss =
    let (ended, ss') = fast_sync_close ss in
    let (freed, ss'') = release_all ss' in (ended ++ freed, ss'')

-- The first slot with this framebuffer id, counted from `i`.
unfoldable pub index_of : ℕ → ℕ → List Slot → Option ℕ
index_of fb_id i [] = none
index_of fb_id i (s ∷ ss) =
    let later = index_of fb_id (i + 1) ss in if s.fb_id == fb_id then some i else later

-- Slot 0 is given up: its window is closed first, while its descriptor is open.
unfoldable pub evict_first : List Slot → List Event × List Slot
evict_first [] = ([], [])
evict_first (s ∷ ss) = (end_due s.sync_started s.prime_fd ++ release_slot s, empty_slot ∷ ss)

abbrev or_evict : Option ℕ → List Slot → ℕ × List Event × List Slot
or_evict (some i) ss = (i, [], ss)
or_evict none ss = let (es, ss') = evict_first ss in (0, es, ss')

abbrev or_empty : Option ℕ → List Slot → ℕ × List Event × List Slot
or_empty (some i) ss = (i, [], ss)
or_empty none ss = or_evict (index_of 0 0 ss) ss

-- find_or_alloc_slot: the slot that holds `fb_id`, else an empty one, else slot 0 after eviction.
unfoldable pub find_or_alloc_slot : ℕ → List Slot → ℕ × List Event × List Slot
find_or_alloc_slot fb_id ss = or_empty (index_of fb_id 0 ss) ss

-- fb_id matches and mmap_ptr is not NULL, which MAP_FAILED is not.
abbrev pub is_set : Mapping → Bool
is_set null = false
is_set _ = true

-- The first slot that holds a mapping of this framebuffer.
unfoldable pub cached_at : ℕ → ℕ → List Slot → Option ℕ
cached_at fb_id i [] = none
cached_at fb_id i (s ∷ ss) =
    let later = cached_at fb_id (i + 1) ss in
    if (s.fb_id == fb_id) && is_set s.mmap_ptr then some i else later

-- ctx->fb2_* as the slot's own plane layout.
pub record Planes : Type 0 where
  pub num_planes : ℕ
  pub pitches : List ℕ
  pub offsets : List ℕ

abbrev pub fast_slot_restage_planes : Slot → Planes
fast_slot_restage_planes s = record {
  num_planes = s.num_planes;
  pitches = s.pitches;
  offsets = s.offsets;
}
