-- ===== src/Grab/OneShot/Conserved.antt =====
-- What a one-shot grab acquires is given back or owned by the frame: one frame, from the
-- framebuffer's handle on.
pub mod Direct
pub mod ByHelper
pub mod Call
use libdrmtap.Prelude.{
  ℕ, ◌+◌, ◌*◌, ◌<◌, ◌≡◌, ◌⊎◌, ◌==◌, Bool, true, false, if◌then◌else◌, Option, none, some, List, [],
  ◌∷◌, ◌++◌, arith, refl, inl, inr, Bool-cases,
}
use libdrmtap.Errno.{Errno, Ret, ok, err, enomem}
use libdrmtap.Grab.Scanout.{scanout_width}
use libdrmtap.Grab.Geometry.{validate_fb_size_iff}
use libdrmtap.Grab.Fast.{
  Mapping, null, failed, mapped, Event, unmap, free_priv, end_due, close_due, gem_due, is_set,
  sync_start, map_at, alloc_priv,
}
use libdrmtap.Grab.Fast.Frame.{Fb2, Frame, fb2_effective_modifier}
use libdrmtap.Grab.Fast.Import.{start_event, dumb_mapping}
use libdrmtap.Grab.Fast.Ledger.{
  Resource, descriptor, mapping, priv_state, total, total-append, granted, returned, Balanced,
  Balanced-append, gem_weight, fd_weight, map_weight, window_weight, gem_due-weight,
  close_due-weight,
}
use libdrmtap.Grab.OneShot.{
  Priv, Info, unmap_priv, release_priv, frame_release, Ctx, Answers, Outcome, after, refuse,
  cleanup_events, cleanup, done, processed,
}
use libdrmtap.Grab.OneShot.Direct.{
  reason, direct_priv, direct_frame, mapped_priv, process_mapped, or_refused, process_unmapped,
  map_or, map_if, with_priv, direct,
}

-- A mapping that release will undo: it has a size, and a window is open only on a mapping.
abbrev pub Undoes : Mapping → ℕ → Bool → Type 0
Undoes null n s = s ≡ false
Undoes failed n s = s ≡ false
Undoes (mapped q) n s = 0 < n

abbrev pub IsPriv : Priv → Type 0
IsPriv p = Undoes p.mapping p.mapped_size p.sync_started

-- A grab that succeeded gives a frame with private state that release undoes, and names `plane`; one
-- that failed leaves the frame as it was or without private state, and names no plane.
abbrev pub HasPriv : Option Priv → Type 0
HasPriv none = ⊥
HasPriv (some p) = IsPriv p

abbrev pub SoundAs : Ret (Unit {0}) → Info → Ctx → ℕ → Info → Ctx → Type 0
SoundAs (ok _) i c plane i' c' = HasPriv i'.priv × (c'.grab_plane_id ≡ plane)
SoundAs (err e) i c plane i' c' =
    ((i' ≡ i) ⊎ (i'.priv ≡ none)) × (c'.grab_plane_id ≡ c.grab_plane_id)

abbrev pub Sound : Info → Ctx → ℕ → Outcome → Type 0
Sound i c plane o = SoundAs o.1 i c plane o.2 o.3

pub release-priv : (i : Info) → (frame_release i).1.priv ≡ none
unfolding frame_release
release-priv i = refl

module _ (w : Resource → ℕ) where
  abbrev pub priv_weight : Option Priv → ℕ
  priv_weight none = 0
  priv_weight (some p) =
      w priv_state
      + gem_weight w p.gem_handle
      + fd_weight w p.prime_fd
      + fd_weight w p.helper_drm_fd
      + map_weight w p.mapping p.mapped_size
      + window_weight w p.sync_started p.prime_fd

  -- What the frame of a grab owns.
  abbrev pub kept : Ret (Unit {0}) → Info → ℕ
  kept (ok _) i = priv_weight i.priv
  kept (err e) i = 0

  -- A grab that has `n` in its hands.
  abbrev pub Accounts : ℕ → Info → Ctx → ℕ → Outcome → Type 0
  Accounts n i c plane o = Balanced w n o.0 (kept o.1 o.2) × Sound i c plane o

  end_due-weight :
      (b : Bool) (g : Option ℕ)
      → (total (granted w) (end_due b g) ≡ 0)
        × (total (returned w) (end_due b g) ≡ window_weight w b g)
  end_due-weight true (some fd) = (refl, omega arith)
  end_due-weight true none = (refl, refl)
  end_due-weight false g = (refl, refl)

  unmap_priv-weight :
      (m : Mapping) (p : Priv)
      → Undoes m p.mapped_size p.sync_started
      → (total (granted w) (unmap_priv m p) ≡ 0)
        × (total (returned w) (unmap_priv m p)
            ≡ map_weight w m p.mapped_size + window_weight w p.sync_started p.prime_fd)
  unmap_priv-weight null p u = (refl, rw u refl)
  unmap_priv-weight failed p u = (refl, rw u refl)
  unmap_priv-weight (mapped q) p u =
      let es = end_due p.sync_started p.prime_fd in
      let last = unmap q p.mapped_size ∷ [] in
      let e : (p.mapped_size == 0) ≡ false = ground arith in
      rw e (
        omega (arith, end_due-weight p.sync_started p.prime_fd, total-append (granted w) es last),
        omega (arith, end_due-weight p.sync_started p.prime_fd, total-append (returned w) es last),
      )

  release-granted :
      (p : Priv)
      → IsPriv p
      → (total (granted w) (release_priv (some p)) ≡ 0)
        × (total (returned w) (release_priv (some p)) ≡ priv_weight (some p))
  release-granted p h =
      let a = unmap_priv p.mapping p in
      let b = close_due p.prime_fd in
      let d = close_due p.helper_drm_fd in
      let e = gem_due p.gem_handle in
      let last = free_priv ∷ [] in
      let au = unmap_priv-weight p.mapping p h in
      let bu = close_due-weight w p.prime_fd in
      let du = close_due-weight w p.helper_drm_fd in
      let eu = gem_due-weight w p.gem_handle in
      (
        omega (
          arith,
          au,
          bu,
          du,
          eu,
          total-append (granted w) a (b ++ (d ++ (e ++ last))),
          total-append (granted w) b (d ++ (e ++ last)),
          total-append (granted w) d (e ++ last),
          total-append (granted w) e last,
        ),
        omega (
          arith,
          au,
          bu,
          du,
          eu,
          total-append (returned w) a (b ++ (d ++ (e ++ last))),
          total-append (returned w) b (d ++ (e ++ last)),
          total-append (returned w) d (e ++ last),
          total-append (returned w) e last,
        ),
      )

  -- Releasing a frame gives back exactly what it owns.
  pub release-Balanced :
      (i : Info) → HasPriv i.priv → Balanced w (priv_weight i.priv) (frame_release i).0 0
  unfolding frame_release
  release-Balanced i h = release_as i.priv h
    where
      release_as : (p : Option Priv) → HasPriv p → Balanced w (priv_weight p) (release_priv p) 0
      release_as none h = elim h [ ]
      release_as (some p) h = omega (arith, release-granted p h)

  pub after-Accounts :
      (n m : ℕ) (es : List Event) (i : Info) (c : Ctx) (plane : ℕ) (o : Outcome)
      → Balanced w n es m
      → Accounts m i c plane o
      → Accounts n i c plane (after es o)
  after-Accounts n m es i c plane o p k = (Balanced-append w n m _ es o.0 p k.0, k.1)

  pub recount-Accounts :
      (n m : ℕ) (i : Info) (c : Ctx) (plane : ℕ) (o : Outcome)
      → n ≡ m
      → Accounts m i c plane o
      → Accounts n i c plane o
  recount-Accounts n m i c plane o e k = (omega (arith, k.0), k.1)

  -- The label `cleanup` gives back what the function still holds.
  pub cleanup-Accounts :
      (fd priv_handle : Option ℕ) (pending : ℕ) (e : Errno) (i i' : Info) (c c' : Ctx) (plane : ℕ)
      → c'.grab_plane_id ≡ c.grab_plane_id
      → Accounts
          (fd_weight w fd + elim priv_handle [
            | none ↦ gem_weight w pending
            | some h ↦ gem_weight w h + w priv_state
          ])
          i
          c
          plane
          (cleanup fd priv_handle pending e i' c')
  cleanup-Accounts fd none pending e i i' c c' plane same = (
    omega (
      arith,
      close_due-weight w fd,
      gem_due-weight w pending,
      total-append (granted w) (close_due fd) (gem_due pending),
      total-append (returned w) (close_due fd) (gem_due pending),
    ),
    (inr refl, same),
  )
  cleanup-Accounts fd (some h) pending e i i' c c' plane same =
      let last = free_priv ∷ [] in
      (
        omega (
          arith,
          close_due-weight w fd,
          gem_due-weight w h,
          total-append (granted w) (close_due fd) (gem_due h ++ last),
          total-append (granted w) (gem_due h) last,
          total-append (returned w) (close_due fd) (gem_due h ++ last),
          total-append (returned w) (gem_due h) last,
        ),
        (inr refl, same),
      )

  pub refuse-Accounts :
      (e : Errno) (i : Info) (c c' : Ctx) (plane : ℕ)
      → c'.grab_plane_id ≡ c.grab_plane_id
      → Accounts 0 i c plane (refuse e i c')
  refuse-Accounts e i c c' plane same = (refl, (inl refl, same))

  pub done-Accounts :
      (plane : ℕ) (i i' : Info) (c c' : Ctx)
      → HasPriv i'.priv
      → Accounts (priv_weight i'.priv) i c plane (done plane i' c')
  done-Accounts plane i i' c c' h = (omega arith, (h, refl))

  -- A frame is delivered, or released.
  pub processed-Accounts :
      (r : Ret (Unit {0}) × Frame) (plane : ℕ) (p : Option Priv) (i : Info) (c c' : Ctx)
      → HasPriv p
      → c'.grab_plane_id ≡ c.grab_plane_id
      → Accounts (priv_weight p) i c plane (processed r plane p c')
  processed-Accounts (ok _, f) plane p i c c' h same =
      done-Accounts plane i (record { frame = f; priv = p }) c c' h
  processed-Accounts (err e, f) plane p i c c' h same = (
    release-Balanced (record { frame = f; priv = p }) h,
    (inr (release-priv (record { frame = f; priv = p })), same),
  )
