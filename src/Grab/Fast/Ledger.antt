-- ===== src/Grab/Fast/Ledger.antt =====
-- What the fast path holds: handles, descriptors, mappings and CPU-access windows. A weight on
-- resources adds up what the kernel granted, what was given back and what the slots hold.
use libdrmtap.Prelude.{
  ℕ, zero, suc, ◌+◌, ◌<◌, ◌≡◌, Bool, ◌||◌, true, false, ◌==◌, if◌then◌else◌, Option, none, some,
  List, [], ◌∷◌, ◌++◌, arith, refl, set, length, inl, inr, Bool-cases,
}
use libdrmtap.Grab.Fast.{
  Mapping, null, failed, mapped, Slot, Event, get_fb2, export_fd, map_at, sync_start, sync_end,
  unmap, close_fd, gem_close, receive_fd, alloc_priv, free_priv, end_due, start_at, fast_sync_close,
  open_at, fast_sync_begin, unmap_due, close_due, gem_due, release_slot, release_all, fast_cleanup,
  evict_first,
}
use libdrmtap.Grab.Fast.Frame.{slot_at}
use libdrmtap.Grab.Fast.Import.{among, close_auxiliary}

pub data Resource : Type 0 where
  handle : ℕ → Resource
  descriptor : ℕ → Resource
  mapping : ℕ → ℕ → Resource
  window : ℕ → Resource
  priv_state : Resource

abbrev pub total : (Event → ℕ) → List Event → ℕ
total f [] = 0
total f (e ∷ es) = f e + total f es

pub total-append : (f : Event → ℕ) (a b : List Event) → total f (a ++ b) ≡ total f a + total f b
total-append f [] b = omega arith
total-append f (e ∷ a) b = omega (arith, total-append f a b)

-- No window is open.
abbrev pub AllClosed : List Slot → Type 0
AllClosed ss = (i : ℕ) → (slot_at i ss).sync_started ≡ false

pub close-AllClosed : (ss : List Slot) → AllClosed (fast_sync_close ss).1
unfolding fast_sync_close
close-AllClosed [] i = refl
close-AllClosed (s ∷ ss) zero = refl
close-AllClosed (s ∷ ss) (suc i) = close-AllClosed ss i

module _ (w : Resource → ℕ) where
  abbrev pub gem_weight : ℕ → ℕ
  gem_weight h = if h == 0 then 0 else w (handle h)

  -- GetFB2 mints a handle for each different buffer object among the planes.
  abbrev pub minted : List ℕ → List ℕ → ℕ
  minted seen [] = 0
  minted seen (h ∷ hs) =
      (if (h == 0) || among h seen then 0 else w (handle h)) + minted (h ∷ seen) hs

  abbrev pub granted : Event → ℕ
  granted (get_fb2 h hs) = minted [] (h ∷ hs)
  granted (export_fd fd) = w (descriptor fd)
  granted (map_at p n) = w (mapping p n)
  granted (sync_start fd) = w (window fd)
  granted (receive_fd fd) = w (descriptor fd)
  granted alloc_priv = w priv_state
  granted _ = 0

  abbrev pub returned : Event → ℕ
  returned (gem_close h) = w (handle h)
  returned (close_fd fd) = w (descriptor fd)
  returned (unmap p n) = w (mapping p n)
  returned (sync_end fd) = w (window fd)
  returned free_priv = w priv_state
  returned _ = 0

  abbrev pub fd_weight : Option ℕ → ℕ
  fd_weight none = 0
  fd_weight (some fd) = w (descriptor fd)

  abbrev pub map_weight : Mapping → ℕ → ℕ
  map_weight null n = 0
  map_weight failed n = 0
  map_weight (mapped p) n = w (mapping p n)

  abbrev pub window_weight : Bool → Option ℕ → ℕ
  window_weight true (some fd) = w (window fd)
  window_weight true none = 0
  window_weight false g = 0

  abbrev pub owned : Slot → ℕ
  owned s =
      gem_weight s.gem_handle
      + fd_weight s.prime_fd
      + map_weight s.mmap_ptr s.mmap_size
      + window_weight s.sync_started s.prime_fd

  abbrev pub held : List Slot → ℕ
  held [] = 0
  held (s ∷ ss) = owned s + held ss

  -- From holding `n` to holding `n'`.
  abbrev pub Balanced : ℕ → List Event → ℕ → Type 0
  Balanced n es n' = n + total granted es ≡ total returned es + n'

  pub Balanced-append :
      (n m k : ℕ) (a b : List Event) → Balanced n a m → Balanced m b k → Balanced n (a ++ b) k
  Balanced-append n m k a b p q =
      omega (arith, p, q, total-append granted a b, total-append returned a b)

  pub Balanced-more : (n m k : ℕ) (a : List Event) → Balanced n a m → Balanced (n + k) a (m + k)
  Balanced-more n m k a p = omega (arith, p)

  ends_weight :
      (b : Bool) (g : Option ℕ)
      → (total granted (end_due b g) ≡ 0) × (total returned (end_due b g) ≡ window_weight b g)
  ends_weight true (some fd) = (refl, omega arith)
  ends_weight true none = (refl, refl)
  ends_weight false g = (refl, refl)

  pub close-Balanced :
      (ss : List Slot) → Balanced (held ss) (fast_sync_close ss).0 (held (fast_sync_close ss).1)
  unfolding fast_sync_close
  close-Balanced [] = refl
  close-Balanced (s ∷ ss) =
      let es = end_due s.sync_started s.prime_fd in
      omega (
        arith,
        close-Balanced ss,
        ends_weight s.sync_started s.prime_fd,
        total-append granted es (fast_sync_close ss).0,
        total-append returned es (fast_sync_close ss).0,
      )

  pub gem_due-weight :
      (h : ℕ) → (total granted (gem_due h) ≡ 0) × (total returned (gem_due h) ≡ gem_weight h)
  gem_due-weight h = elim (Bool-cases (h == 0)) [
    | inl z ↦ rw z (refl, refl)
    | inr nz ↦ rw nz (refl, omega arith)
  ]

  pub close_due-weight :
      (g : Option ℕ)
      → (total granted (close_due g) ≡ 0) × (total returned (close_due g) ≡ fd_weight g)
  close_due-weight none = (refl, refl)
  close_due-weight (some fd) = (refl, omega arith)

  unmap_due-weight :
      (m : Mapping) (n : ℕ)
      → (total granted (unmap_due m n) ≡ 0) × (total returned (unmap_due m n) ≡ map_weight m n)
  unmap_due-weight null n = (refl, refl)
  unmap_due-weight failed n = (refl, refl)
  unmap_due-weight (mapped p) n = (refl, omega arith)

  -- Releasing a slot returns all it holds but its window.
  release-weight :
      (s : Slot)
      → (total granted (release_slot s) ≡ 0)
        × (total returned (release_slot s) ≡ owned (record s { sync_started = false }))
  unfolding release_slot
  release-weight s =
      let a = unmap_due s.mmap_ptr s.mmap_size in
      let b = close_due s.prime_fd in
      let d = gem_due s.gem_handle in
      let p = unmap_due-weight s.mmap_ptr s.mmap_size in
      let q = close_due-weight s.prime_fd in
      let r = gem_due-weight s.gem_handle in
      (
        omega (arith, p, q, r, total-append granted a (b ++ d), total-append granted b d),
        omega (arith, p, q, r, total-append returned a (b ++ d), total-append returned b d),
      )

  shut-owned :
      (s : Slot) → s.sync_started ≡ false → owned (record s { sync_started = false }) ≡ owned s
  shut-owned s e = rw e refl

  release_all-Balanced :
      (ss : List Slot)
      → AllClosed ss
      → Balanced (held ss) (release_all ss).0 (held (release_all ss).1)
  unfolding release_all
  release_all-Balanced [] closed = refl
  release_all-Balanced (s ∷ ss) closed = omega (
    arith,
    release_all-Balanced ss (λ i. closed (suc i)),
    release-weight s,
    shut-owned s (closed 0),
    total-append granted (release_slot s) (release_all ss).0,
    total-append returned (release_slot s) (release_all ss).0,
  )

  pub cleanup-Balanced :
      (ss : List Slot) → Balanced (held ss) (fast_cleanup ss).0 (held (fast_cleanup ss).1)
  unfolding fast_cleanup
  cleanup-Balanced ss =
      Balanced-append (held ss) (held (fast_sync_close ss).1) _ (fast_sync_close ss).0 _
        (close-Balanced ss) (release_all-Balanced (fast_sync_close ss).1 (close-AllClosed ss))

  pub evict-Balanced :
      (ss : List Slot) → Balanced (held ss) (evict_first ss).0 (held (evict_first ss).1)
  unfolding evict_first
  evict-Balanced [] = refl
  evict-Balanced (s ∷ ss) =
      let es = end_due s.sync_started s.prime_fd in
      omega (
        arith,
        release-weight s,
        ends_weight s.sync_started s.prime_fd,
        total-append granted es (release_slot s),
        total-append returned es (release_slot s),
      )

  start-weight :
      (ok : Bool) (g : Option ℕ) (s : Slot)
      → s.prime_fd ≡ g
      → s.sync_started ≡ false
      → Balanced (owned s) (start_at ok g s).0 (owned (start_at ok g s).1)
  start-weight true (some fd) s e f = rw (e, f) (omega arith)
  start-weight false (some fd) s e f = rw f (omega arith)
  start-weight true none s e f = omega arith
  start-weight false none s e f = omega arith

  open_at-Balanced :
      (ok : Bool) (i : ℕ) (ss : List Slot)
      → AllClosed ss
      → Balanced (held ss) (open_at ok i ss).0 (held (open_at ok i ss).1)
  unfolding open_at
  open_at-Balanced ok i [] closed = refl
  open_at-Balanced ok zero (s ∷ ss) closed =
      omega (arith, start-weight ok s.prime_fd s refl (closed 0))
  open_at-Balanced ok (suc i) (s ∷ ss) closed =
      omega (arith, open_at-Balanced ok i ss (λ j. closed (suc j)))

  pub begin-Balanced :
      (ok : Bool) (i : ℕ) (ss : List Slot)
      → Balanced (held ss) (fast_sync_begin ok i ss).0 (held (fast_sync_begin ok i ss).1)
  unfolding fast_sync_begin
  begin-Balanced ok i ss =
      Balanced-append (held ss) (held (fast_sync_close ss).1) _ (fast_sync_close ss).0 _
        (close-Balanced ss) (open_at-Balanced ok i (fast_sync_close ss).1 (close-AllClosed ss))

  -- Storing a slot drops what the old one held.
  pub set-held :
      (i : ℕ) (s : Slot) (ss : List Slot)
      → i < length ss
      → held (set ss i s) + owned (slot_at i ss) ≡ held ss + owned s
  set-held i s [] h = elim h [ ]
  set-held zero s (t ∷ ss) h = omega arith
  set-held (suc i) s (t ∷ ss) h = omega (arith, set-held i s ss (omega arith))

  among_last :
      (h first : ℕ) (gs : List ℕ) → among h (gs ++ (first ∷ [])) ≡ (h == first) || among h gs
  among_last h first [] = ground arith
  among_last h first (g ∷ gs) = ground (arith, among_last h first gs)

  -- Each handle that GetFB2 minted beside that of plane 0 is closed once.
  auxiliary-weight :
      (first : ℕ) (earlier hs : List ℕ)
      → (total granted (close_auxiliary first earlier hs) ≡ 0)
        × (total returned (close_auxiliary first earlier hs) ≡ minted (earlier ++ (first ∷ [])) hs)
  unfolding close_auxiliary
  auxiliary-weight first earlier [] = (refl, refl)
  auxiliary-weight first earlier (h ∷ hs) =
      ground (arith, auxiliary-weight first (h ∷ earlier) hs, among_last h first earlier)

  pub fb2-Balanced :
      (n h : ℕ) (hs : List ℕ)
      → Balanced n (get_fb2 h hs ∷ close_auxiliary h [] hs) (n + gem_weight h)
  fb2-Balanced n h hs = grind (arith, auxiliary-weight h [] hs)
