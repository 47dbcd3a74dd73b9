-- ===== src/Grab/Fast/Conserved/Import.antt =====
-- The same of a framebuffer that is imported.
use libdrmtap.Prelude.{
  ℕ, ◌+◌, ◌*◌, ◌<◌, ◌≡◌, Bool, true, false, ◌==◌, Option, none, some, [], ◌∷◌, arith, refl, sym,
  subst, ap, set, inl, inr, Bool-cases,
}
use libdrmtap.Errno.{Ret, ok, err, eacces}
use libdrmtap.Grab.Scanout.{scanout_width}
use libdrmtap.Grab.Fast.{is_set, map_at, get_fb2, export_fd}
use libdrmtap.Grab.Fast.Frame.{
  Fb2, Frame, Answers, FastCtx, deliver, slot_frame, fb2_effective_modifier,
}
use libdrmtap.Grab.Fast.Import.{
  read_by_egl, cpu_map_unless, map_or, exported_as, accepted, check_geometry, imported, new_slot,
  store, give_back, egl_result, unmappable, start_event, cpu_mapping, or_unmappable, cpu_map_fb,
  dumb_mapping, map_fb, export_fb, refuse_unprivileged, import_fb, staged, close_auxiliary,
}
use libdrmtap.Grab.Fast.Ledger.{
  Resource, descriptor, mapping, held, owned, gem_weight, window_weight, total, granted, returned,
  Balanced, set-held, fb2-Balanced, gem_due-weight,
}
use libdrmtap.Grab.Fast.Slots.{set-IsSlots}
use libdrmtap.Grab.Fast.Conserved.{
  IsCtx, Ready, after-Keeps, delivered-Keeps, quiet-Keeps, cleanup-Keeps, Keeps,
}

module _ (w : Resource → ℕ) where
  module _ (a : Answers) (f : Fb2) (fb_id i : ℕ) (pos : 0 < fb_id) where
    size : ℕ
    size = f.pitch * f.height

    store-Keeps :
        (fd p : ℕ) (started : Bool) (c : FastCtx)
        → Ready i c.slots c.fast_initialized
        → c.fast_initialized ≡ true
        → Keeps w
            (held w c.slots
              + gem_weight w f.handle
              + w (descriptor fd)
              + window_weight w started (some fd)
              + w (mapping p (f.pitch * f.height)))
            (store a f fb_id fd p started i c)
    unfolding store deliver
    store-Keeps fd p started c v init =
        let s =
          new_slot f fb_id fd p
            (scanout_width c.memo a.mode a.rect f.width (fb2_effective_modifier f.modifier)).0
            started c.planes in
        let kept =
          delivered-Keeps w (a.process (slot_frame s))
            (record c {
              slots = set c.slots i s;
              fast_last_fb_id = fb_id;
              memo =
                  (scanout_width c.memo a.mode a.rect f.width
                    (fb2_effective_modifier f.modifier)).1;
            })
            (record {
              slots = set-IsSlots i s c.slots v.ctx.slots v.closed (inr (pos, p, refl));
              fresh = λ e. absurd (cc (init, e));
            }) in
        record {
          balanced =
              omega (arith, kept.balanced, set-held w i s c.slots v.in_range, ap (owned w) v.empty);
          ctx = kept.ctx;
        }

    give_back-weight :
        (started : Bool) (fd : ℕ)
        → (total (granted w) (give_back started fd f.handle) ≡ 0)
          × (total (returned w) (give_back started fd f.handle)
              ≡ gem_weight w f.handle + w (descriptor fd) + window_weight w started (some fd))
    give_back-weight true fd =
        (omega (arith, gem_due-weight w f.handle), omega (arith, gem_due-weight w f.handle))
    give_back-weight false fd =
        (omega (arith, gem_due-weight w f.handle), omega (arith, gem_due-weight w f.handle))

    give_back-Keeps :
        (started : Bool) (fd : ℕ) (r : Ret Frame) (c : FastCtx)
        → IsCtx c.slots c.fast_initialized
        → Keeps w
            (held w c.slots
              + gem_weight w f.handle
              + w (descriptor fd)
              + window_weight w started (some fd))
            (give_back started fd f.handle, r, c)
    give_back-Keeps started fd r c v = record {
      balanced = omega (arith, give_back-weight started fd);
      ctx = v;
    }

    egl_result-Keeps :
        (started : Bool) (fd : ℕ) (r : Ret Frame) (c : FastCtx)
        → IsCtx c.slots c.fast_initialized
        → let (r', c') = egl_result r c in
          Keeps w
            (held w c.slots
              + gem_weight w f.handle
              + w (descriptor fd)
              + window_weight w started (some fd))
            (give_back started fd f.handle, r', c')
    egl_result-Keeps started fd (err e) c v = give_back-Keeps started fd (err e) c v
    egl_result-Keeps started fd (ok x) c v = elim (Bool-cases (is_set x.data_ptr)) [
      | inl set ↦
          rw set (give_back-Keeps started fd _ (record c { grab_plane_id = c.fast_plane_id }) v)
      | inr unset ↦ rw unset (give_back-Keeps started fd _ c v)
    ]

    read-Keeps :
        (egl started : Bool) (fd : ℕ) (c : FastCtx)
        → IsCtx c.slots c.fast_initialized
        → let (r, c') = read_by_egl egl a f fb_id fd c in
          Keeps w
            (held w c.slots
              + gem_weight w f.handle
              + w (descriptor fd)
              + window_weight w started (some fd))
            (give_back started fd f.handle, r, c')
    read-Keeps false started fd c v = give_back-Keeps started fd _ c v
    read-Keeps true started fd c v =
        egl_result-Keeps started fd _ (record c { fast_last_fb_id = 0; memo = _ }) v

    unmappable-Keeps :
        (started : Bool) (fd : ℕ) (c : FastCtx)
        → IsCtx c.slots c.fast_initialized
        → Keeps w
            (held w c.slots
              + gem_weight w f.handle
              + w (descriptor fd)
              + window_weight w started (some fd))
            (unmappable a f fb_id fd started c)
    unfolding unmappable
    unmappable-Keeps started fd c v = read-Keeps a.egl started fd c v

    -- What the START and the mapping that follows it bring in.
    map_weight_of : Option ℕ → ℕ
    map_weight_of none = 0
    map_weight_of (some p) = w (mapping p (f.pitch * f.height))

    attempt-Balanced :
        (n fd : ℕ) (opened forced : Bool) (m : Option ℕ)
        → let (es, m') = cpu_mapping m forced (f.pitch * f.height) in
          Balanced w n
            (start_event opened fd ∷ es)
            (n + window_weight w opened (some fd) + map_weight_of m')
    unfolding map_weight_of
    attempt-Balanced n fd true forced none = omega arith
    attempt-Balanced n fd false forced none = omega arith
    attempt-Balanced n fd true false (some p) = omega arith
    attempt-Balanced n fd false false (some p) = omega arith
    attempt-Balanced n fd true true (some p) = omega arith
    attempt-Balanced n fd false true (some p) = omega arith

    or_unmappable-Keeps :
        (fd : ℕ) (m : Option ℕ) (c : FastCtx)
        → Ready i c.slots c.fast_initialized
        → c.fast_initialized ≡ true
        → Keeps w
            (held w c.slots
              + gem_weight w f.handle
              + w (descriptor fd)
              + window_weight w a.granted (some fd)
              + map_weight_of m)
            (or_unmappable a f fb_id fd i c m)
    unfolding map_weight_of
    or_unmappable-Keeps fd (some p) c v init = store-Keeps fd p a.granted c v init
    or_unmappable-Keeps fd none c v init =
        after-Keeps w _
          (held w c.slots
            + gem_weight w f.handle
            + w (descriptor fd)
            + window_weight w a.granted (some fd))
          [] _ (omega arith)
          (unmappable-Keeps a.granted fd (record c { fast_no_cpu_map = true }) v.ctx)

    cpu_map_unless-Keeps :
        (known : Bool) (fd : ℕ) (c : FastCtx)
        → Ready i c.slots c.fast_initialized
        → c.fast_initialized ≡ true
        → Keeps w
            (held w c.slots + gem_weight w f.handle + w (descriptor fd))
            (cpu_map_unless known a f fb_id fd i c)
    cpu_map_unless-Keeps true fd c v init =
        after-Keeps w _ (held w c.slots + gem_weight w f.handle + w (descriptor fd) + 0) [] _
          (omega arith) (unmappable-Keeps false fd c v.ctx)
    cpu_map_unless-Keeps false fd c v init =
        let m = cpu_mapping a.cpu_map a.forced (f.pitch * f.height) in
        after-Keeps w _ _ (start_event a.granted fd ∷ m.0) _
          (attempt-Balanced (held w c.slots + gem_weight w f.handle + w (descriptor fd)) fd
            a.granted a.forced a.cpu_map)
          (or_unmappable-Keeps fd m.1 c v init)

    map_or-Keeps :
        (m : Option ℕ) (fd : ℕ) (c : FastCtx)
        → Ready i c.slots c.fast_initialized
        → c.fast_initialized ≡ true
        → Keeps w
            (held w c.slots + gem_weight w f.handle + w (descriptor fd))
            (map_or m a f fb_id fd i c)
    unfolding cpu_map_fb
    map_or-Keeps none fd c v init = cpu_map_unless-Keeps c.fast_no_cpu_map fd c v init
    map_or-Keeps (some p) fd c v init =
        after-Keeps w _ _ (map_at p (f.pitch * f.height) ∷ []) _ (omega arith)
          (store-Keeps fd p false c v init)

    exported_as-Keeps :
        (r : Ret ℕ) (c : FastCtx)
        → Ready i c.slots c.fast_initialized
        → c.fast_initialized ≡ true
        → Keeps w (held w c.slots + gem_weight w f.handle) (exported_as r a f fb_id i c)
    unfolding map_fb
    exported_as-Keeps (err e) c v init = record {
      balanced = omega (arith, gem_due-weight w f.handle);
      ctx = v.ctx;
    }
    exported_as-Keeps (ok fd) c v init =
        after-Keeps w _ (held w c.slots + gem_weight w f.handle + w (descriptor fd))
          (export_fd fd ∷ []) _ (omega arith)
          (map_or-Keeps (dumb_mapping a.virtio a.transfer a.dumb_map) fd c v init)

    accepted-Keeps :
        (r : Ret (Unit {0})) (c : FastCtx)
        → Ready i c.slots c.fast_initialized
        → c.fast_initialized ≡ true
        → Keeps w (held w c.slots + gem_weight w f.handle) (accepted r a f fb_id i c)
    unfolding export_fb
    accepted-Keeps (err e) c v init = record {
      balanced = omega (arith, gem_due-weight w f.handle);
      ctx = v.ctx;
    }
    accepted-Keeps (ok _) c v init =
        exported_as-Keeps a.exported (record c { planes = staged f }) v init

    import-accepted :
        (c : FastCtx)
        → (f.handle == 0) ≡ false
        → import_fb a f fb_id i c ≡ accepted (check_geometry f) a f fb_id i c
    unfolding import_fb
    import-accepted c owns = rw owns refl

    import-refused :
        (c : FastCtx) → (f.handle == 0) ≡ true → import_fb a f fb_id i c ≡ refuse_unprivileged c
    unfolding import_fb
    import-refused c none_owned = rw none_owned refl

    import-Keeps :
        (c : FastCtx)
        → Ready i c.slots c.fast_initialized
        → c.fast_initialized ≡ true
        → Keeps w (held w c.slots + gem_weight w f.handle) (import_fb a f fb_id i c)
    import-Keeps c v init = elim (Bool-cases (f.handle == 0)) [
      | inr owns ↦
          subst (Keeps w _) (sym (import-accepted c owns))
            (accepted-Keeps (check_geometry f) c v init)
      | inl bare ↦ subst (Keeps w _) (sym (import-refused c bare)) (
          after-Keeps w _ (held w c.slots) [] _ (ground (arith, bare))
            (cleanup-Keeps w (err eacces) (record c { fast_no_privilege = true }) v.ctx))
    ]

  pub imported-Keeps :
      (r : Ret Fb2) (a : Answers) (fb_id i : ℕ) (c : FastCtx)
      → 0 < fb_id
      → Ready i c.slots c.fast_initialized
      → c.fast_initialized ≡ true
      → Keeps w (held w c.slots) (imported r a fb_id i c)
  imported-Keeps (err e) a fb_id i c pos v init = quiet-Keeps w (err e) c v.ctx
  imported-Keeps (ok f) a fb_id i c pos v init =
      after-Keeps w _ _ (get_fb2 f.handle f.aux_handles ∷ close_auxiliary f.handle [] f.aux_handles)
        _ (fb2-Balanced w (held w c.slots) f.handle f.aux_handles)
        (import-Keeps a f fb_id i pos c v init)
