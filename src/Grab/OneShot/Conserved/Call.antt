-- ===== src/Grab/OneShot/Conserved/Call.antt =====
-- The same of a whole grab, and of a grab whose frame is released.
use libdrmtap.Prelude.{
  ℕ, zero, suc, ◌+◌, ◌*◌, ◌<◌, ◌≤◌, ◌≡◌, ◌≢◌, ◌⊎◌, ◌==◌, Bool, true, false, Option, none, some,
  List, [], ◌∷◌, ◌++◌, arith, refl, inl, inr,
}
use libdrmtap.Errno.{Errno, Ret, ok, err, enotsup, enodev, Ret-cases}
use libdrmtap.Grab.Geometry.{validate_fb_dims, validate_fb_size, validate_fb_size-pos}
use libdrmtap.Grab.Fast.{Event, get_fb2, export_fd, gem_due}
use libdrmtap.Grab.Fast.Frame.{Fb2}
use libdrmtap.Grab.Fast.Import.{close_auxiliary, staged, check_geometry}
use libdrmtap.Grab.Fast.Ledger.{
  Resource, descriptor, Balanced, Balanced-append, gem_weight, gem_due-weight, fb2-Balanced,
}
use libdrmtap.Grab.OneShot.{Info, frame_release, Ctx, Answers, Outcome, cleanup}
use libdrmtap.Grab.OneShot.ByHelper.{by_helper}
use libdrmtap.Grab.OneShot.Call.{
  is_denied, denied_or, on_export, export_or, on_geometry, on_fb2, on_plane_fb, on_plane,
  unless_render_only, do_grab, Desc, Described,
}
use libdrmtap.Grab.OneShot.Conserved.{
  HasPriv, Accounts, priv_weight, after-Accounts, recount-Accounts, cleanup-Accounts,
  refuse-Accounts, release-Balanced,
}
use libdrmtap.Grab.OneShot.Conserved.Direct.{direct-Accounts}
use libdrmtap.Grab.OneShot.Conserved.ByHelper.{by_helper-Accounts}

geometry-sized : (f : Fb2) → check_geometry f ≡ ok tt → 0 < f.pitch * f.height
geometry-sized f e = elim (Ret-cases (validate_fb_dims 64 f.width f.height)) [
  | inr (x, bad) ↦ absurd (cc (bad, e))
  | inl (u, fine) ↦ elim (Ret-cases (validate_fb_size f.pitch f.height)) [
    | inr (x, bad) ↦ absurd (cc (fine, bad, e))
    | inl (v, sized) ↦ validate_fb_size-pos f.pitch f.height sized
  ]
]

module _ (w : Resource → ℕ) (do_mmap : Bool) (a : Answers) (i : Info) (c : Ctx) where
  module _ (plane : ℕ) (f : Fb2) (fb_id : ℕ) where
    gem_due-Balanced : Balanced w (gem_weight w f.handle) (gem_due f.handle) 0
    gem_due-Balanced = omega (arith, gem_due-weight w f.handle)

    give_up-Accounts :
        (e : Errno) (c' : Ctx)
        → c'.grab_plane_id ≡ c.grab_plane_id
        → Accounts w (gem_weight w f.handle) i c plane (cleanup none none f.handle e i c')
    give_up-Accounts e c' same =
        recount-Accounts w _ (0 + gem_weight w f.handle) i c plane
          (cleanup none none f.handle e i c') (omega arith)
          (cleanup-Accounts w none none f.handle e i i c c' plane same)

    denied_or-Accounts :
        (denied : Bool) (e : Errno) (c' : Ctx)
        → c'.grab_plane_id ≡ c.grab_plane_id
        → Accounts w (gem_weight w f.handle) i c plane (denied_or do_mmap a denied e plane f i c')
    denied_or-Accounts true e c' same =
        after-Accounts w _ 0 (gem_due f.handle) i c plane _ gem_due-Balanced
          (by_helper-Accounts w a plane do_mmap i c f c' same)
    denied_or-Accounts false e c' same = give_up-Accounts e c' same

    on_export-Accounts :
        (r : Ret ℕ) (c' : Ctx)
        → 0 < f.pitch * f.height
        → c'.grab_plane_id ≡ c.grab_plane_id
        → Accounts w (gem_weight w f.handle) i c plane (on_export do_mmap a r plane f fb_id i c')
    on_export-Accounts (ok fd) c' sized same =
        after-Accounts w _ (gem_weight w f.handle + w (descriptor fd)) (export_fd fd ∷ []) i c plane
          _ (omega arith) (direct-Accounts w a plane f fb_id fd i c sized do_mmap c' same)
    on_export-Accounts (err e) c' sized same = denied_or-Accounts (is_denied e) e c' same

    export_or-Accounts :
        (bare : Bool) (c' : Ctx)
        → (f.handle == 0) ≡ bare
        → 0 < f.pitch * f.height
        → c'.grab_plane_id ≡ c.grab_plane_id
        → Accounts w (gem_weight w f.handle) i c plane (export_or do_mmap a bare plane f fb_id i c')
    export_or-Accounts true c' bare sized same =
        recount-Accounts w _ 0 i c plane (by_helper a plane do_mmap f i c') (ground (arith, bare))
          (by_helper-Accounts w a plane do_mmap i c f c' same)
    export_or-Accounts false c' owns sized same = on_export-Accounts a.exported c' sized same

    on_geometry-Accounts :
        (r : Ret (Unit {0})) (c' : Ctx)
        → check_geometry f ≡ r
        → c'.grab_plane_id ≡ c.grab_plane_id
        → Accounts w (gem_weight w f.handle) i c plane (on_geometry do_mmap a r plane f fb_id i c')
    on_geometry-Accounts (err e) c' checked same = give_up-Accounts e c' same
    on_geometry-Accounts (ok _) c' checked same =
        export_or-Accounts (f.handle == 0) (record c' { planes = staged f }) refl
          (geometry-sized f checked) same

  on_fb2-Accounts :
      (r : Ret Fb2) (plane fb_id : ℕ) (c' : Ctx)
      → c'.grab_plane_id ≡ c.grab_plane_id
      → Accounts w 0 i c plane (on_fb2 do_mmap a r plane fb_id i c')
  on_fb2-Accounts (err e) plane fb_id c' same = refuse-Accounts w e i c c' plane same
  on_fb2-Accounts (ok f) plane fb_id c' same =
      after-Accounts w 0 (gem_weight w f.handle)
        (get_fb2 f.handle f.aux_handles ∷ close_auxiliary f.handle [] f.aux_handles) i c plane _
        (omega (arith, fb2-Balanced w 0 f.handle f.aux_handles))
        (on_geometry-Accounts plane f fb_id (check_geometry f) c' refl same)

  on_plane_fb-Accounts :
      (fb : Option ℕ) (plane : ℕ) (c' : Ctx)
      → c'.grab_plane_id ≡ c.grab_plane_id
      → Accounts w 0 i c plane (on_plane_fb do_mmap a fb plane i c')
  on_plane_fb-Accounts none plane c' same = refuse-Accounts w enodev i c c' plane same
  on_plane_fb-Accounts (some zero) plane c' same = refuse-Accounts w enodev i c c' plane same
  on_plane_fb-Accounts (some (suc n)) plane c' same = on_fb2-Accounts a.fb2 plane (suc n) c' same

  on_plane-Accounts :
      (plane : ℕ) (c' : Ctx)
      → c'.grab_plane_id ≡ c.grab_plane_id
      → Accounts w 0 i c plane (on_plane do_mmap a plane i c')
  on_plane-Accounts zero c' same = refuse-Accounts w enodev i c c' 0 same
  on_plane-Accounts (suc n) c' same = on_plane_fb-Accounts a.plane_fb (suc n) c' same

  unless_render_only-Accounts :
      (b : Bool) → Accounts w 0 i c a.primary_plane (unless_render_only do_mmap a b i c)
  unless_render_only-Accounts true = refuse-Accounts w enotsup i c c a.primary_plane refl
  unless_render_only-Accounts false =
      on_plane-Accounts a.primary_plane
        (record c { cur_hdr_eotf = a.hdr.0; cur_hdr_max_nits = a.hdr.1 }) refl

  -- A one-shot grab, whatever the kernel, the helper and the converters answer: every handle,
  -- descriptor, mapping, CPU-access window and private state that it was granted has been given back
  -- once, or is owned by the frame of a grab that succeeded. A grab that failed leaves the frame as
  -- it was or without private state, and the plane's name as it was; one that succeeded names its
  -- plane.
  pub do_grab-Accounts : Accounts w 0 i c a.primary_plane (do_grab do_mmap a i c)
  unfolding do_grab
  do_grab-Accounts = unless_render_only-Accounts c.is_render_only

-- A client that releases the frame of a grab that succeeded.
abbrev pub release_ok : Outcome → List Event
release_ok (es, err e, i, c) = es
release_ok (es, ok _, i, c) = es ++ (frame_release i).0

unfoldable pub grab_and_release : Bool → Answers → Info → Ctx → List Event
grab_and_release do_mmap a i c = release_ok (do_grab do_mmap a i c)

-- After a grab and the release of its frame nothing is held, whatever happened.
pub grab_and_release-Balanced :
    (w : Resource → ℕ) (do_mmap : Bool) (a : Answers) (i : Info) (c : Ctx)
    → Balanced w 0 (grab_and_release do_mmap a i c) 0
unfolding grab_and_release
grab_and_release-Balanced w do_mmap a i c =
    release_ok-Balanced (do_grab do_mmap a i c) (do_grab-Accounts w do_mmap a i c)
  where
    release_ok-Balanced :
        (o : Outcome) → Accounts w 0 i c a.primary_plane o → Balanced w 0 (release_ok o) 0
    release_ok-Balanced (es, err e, i', c') k = k.0
    release_ok-Balanced (es, ok _, i', c') k =
        Balanced-append w 0 (priv_weight w i'.priv) 0 es (frame_release i').0 k.0
          (release-Balanced w i' k.1.0)

-- A split capture: a descriptor that is handed on comes with an open DMA-BUF and one to four planes;
-- without one the frame has been released, if there was any, and the plane's name is as before.
abbrev pub DescribedAs : Ret Desc → Info → Ctx → ℕ → Info → Ctx → Type 0
DescribedAs (ok d) i c plane i' c' =
    HasPriv i'.priv
    × (c'.grab_plane_id ≡ plane)
    × (d.dma_buf_fd ≢ none)
    × (0 < d.num_planes)
    × (d.num_planes ≤ 4)
DescribedAs (err e) i c plane i' c' =
    ((i' ≡ i) ⊎ (i'.priv ≡ none)) × (c'.grab_plane_id ≡ c.grab_plane_id)

abbrev pub desc_kept : (Resource → ℕ) → Ret Desc → Info → ℕ
desc_kept w (ok d) i = priv_weight w i.priv
desc_kept w (err e) i = 0

abbrev pub DescAccounts : (Resource → ℕ) → Info → Ctx → ℕ → Described → Type 0
DescAccounts w i c plane o =
    Balanced w 0 o.0 (desc_kept w o.1 o.2) × DescribedAs o.1 i c plane o.2 o.3
