-- ===== src/Context/Opened.antt =====
-- Which descriptors are open after drmtap_open and drmtap_list_devices.
use libdrmtap.Prelude.{
  ℕ, ◌+◌, ◌≡◌, Bool, true, false, ltb, Option, none, some, List, [], ◌∷◌, ◌++◌, refl, arith,
}
use libdrmtap.Context.{
  NodeEvent, open_node, close_node, dup, Scanned, Node, count_active, Device, Scan, close_old,
  best_active, keep_first, if_better, if_active, try_node, scan_nodes, settle, scan_all, fd_of,
  open_drm_auto, protected, open_device, open_context,
}

abbrev pub opened : (ℕ → ℕ) → List NodeEvent → ℕ
opened w [] = 0
opened w (open_node fd ∷ es) = w fd + opened w es
opened w (dup fd ∷ es) = w fd + opened w es
opened w (close_node fd ∷ es) = opened w es

abbrev pub closed : (ℕ → ℕ) → List NodeEvent → ℕ
closed w [] = 0
closed w (open_node fd ∷ es) = closed w es
closed w (dup fd ∷ es) = closed w es
closed w (close_node fd ∷ es) = w fd + closed w es

abbrev pub owned : (ℕ → ℕ) → Option ℕ → ℕ
owned w none = 0
owned w (some fd) = w fd

-- What was open before and what was opened is what was closed and what is open after, each descriptor
-- with its weight.
abbrev pub Accounts : (ℕ → ℕ) → ℕ → List NodeEvent → ℕ → Type 0
Accounts w n es m = n + opened w es ≡ closed w es + m

module _ (w : ℕ → ℕ) where
  opened-append : (es fs : List NodeEvent) → opened w (es ++ fs) ≡ opened w es + opened w fs
  opened-append [] fs = omega arith
  opened-append (open_node fd ∷ es) fs = omega (arith, opened-append es fs)
  opened-append (dup fd ∷ es) fs = omega (arith, opened-append es fs)
  opened-append (close_node fd ∷ es) fs = opened-append es fs

  closed-append : (es fs : List NodeEvent) → closed w (es ++ fs) ≡ closed w es + closed w fs
  closed-append [] fs = omega arith
  closed-append (open_node fd ∷ es) fs = closed-append es fs
  closed-append (dup fd ∷ es) fs = closed-append es fs
  closed-append (close_node fd ∷ es) fs = omega (arith, closed-append es fs)

  append-Accounts :
      (n m k : ℕ) (es fs : List NodeEvent)
      → Accounts w n es m
      → Accounts w m fs k
      → Accounts w n (es ++ fs) k
  append-Accounts n m k es fs p q = omega (arith, p, q, opened-append es fs, closed-append es fs)

  device : Option Device → ℕ
  device d = owned w (fd_of d)

  -- What the scan holds.
  held : Scan → ℕ
  held s = device s.best + device s.fallback

  close_old-Accounts : (d : Option Device) → Accounts w (device d) (close_old d) 0
  unfolding device
  close_old-Accounts none = refl
  close_old-Accounts (some d) = omega arith

  if_better-Accounts :
      (b : Bool) (d : Device) (s : Scan)
      → Accounts w (w d.fd + held s) (if_better b d s).0 (held (if_better b d s).1)
  unfolding held device
  if_better-Accounts true d s = omega (arith, close_old-Accounts s.best)
  if_better-Accounts false d s = omega arith

  keep_first-Accounts :
      (f : Option Device) (d : Device) (s : Scan)
      → s.fallback ≡ f
      → Accounts w (w d.fd + held s) (keep_first f d s).0 (held (keep_first f d s).1)
  unfolding held device
  keep_first-Accounts none d s e = rw e (omega arith)
  keep_first-Accounts (some f) d s e = omega arith

  try_node-Accounts :
      (fd : Option ℕ) (cs : Option (List (Option Scanned))) (minor : ℕ) (s : Scan)
      → Accounts w (held s) (try_node fd cs minor s).0 (held (try_node fd cs minor s).1)
  try_node-Accounts none cs minor s = omega arith
  try_node-Accounts (some fd) none minor s = omega arith
  try_node-Accounts (some fd) (some cs) minor s = by_activity (ltb 0 d.active)
    where
      d : Device
      d = record { minor = minor; fd = fd; active = count_active cs }

      by_activity :
          (b : Bool)
          → Accounts w (held s) (open_node fd ∷ (if_active b d s).0) (held (if_active b d s).1)
      by_activity true = omega (arith, if_better-Accounts (ltb (best_active s.best) d.active) d s)
      by_activity false = omega (arith, keep_first-Accounts s.fallback d s refl)

  scan_nodes-Accounts :
      (ns : List Node) (minor : ℕ) (s : Scan)
      → Accounts w (held s) (scan_nodes minor ns s).0 (held (scan_nodes minor ns s).1)
  unfolding scan_nodes
  scan_nodes-Accounts [] minor s = omega arith
  scan_nodes-Accounts (n ∷ ns) minor s =
      let (es, t) = try_node n.fd n.crtcs minor s in
      let (fs, u) = scan_nodes (minor + 1) ns t in
      append-Accounts (held s) (held t) (held u) es fs (try_node-Accounts n.fd n.crtcs minor s)
        (scan_nodes-Accounts ns (minor + 1) t)

  settle-Accounts :
      (b : Option Device) (s : Scan)
      → Accounts w (device b + device s.fallback) (settle s b).0 (device (settle s b).1)
  unfolding device
  settle-Accounts none s = omega arith
  settle-Accounts (some d) s = omega (arith, close_old-Accounts s.fallback)

  scan_all-Accounts : (ns : List Node) → Accounts w 0 (scan_all ns).0 (device (scan_all ns).1)
  unfolding held device
  scan_all-Accounts ns =
      let start : Scan = record { best = none; fallback = none } in
      let (es, s) = scan_nodes 0 ns start in
      let (fs, d) = settle s s.best in
      append-Accounts 0 (held s) (device d) es fs (scan_nodes-Accounts ns 0 start)
        (settle-Accounts s.best s)

  open_device-Accounts :
      (path : Option (Option ℕ)) (env : Option ℕ) (ns : List Node)
      → Accounts w 0 (open_device path env ns).0 (owned w (open_device path env ns).1)
  unfolding open_drm_auto device
  open_device-Accounts (some none) env ns = refl
  open_device-Accounts (some (some fd)) env ns = omega arith
  open_device-Accounts none (some fd) ns = omega arith
  open_device-Accounts none none ns = scan_all-Accounts ns

  protected-Accounts :
      (high : Option ℕ) (r : Option ℕ) (es : List NodeEvent)
      → Accounts w 0 es (owned w r)
      → Accounts w 0 (protected high (es, r)).0 (owned w (protected high (es, r)).1)
  protected-Accounts high none es p = p
  protected-Accounts none (some fd) es p = append-Accounts 0 (w fd) (w fd) es [] p (omega arith)
  protected-Accounts (some h) (some fd) es p =
      append-Accounts 0 (w fd) (w h) es (dup h ∷ close_node fd ∷ []) p (omega arith)

  -- Opening a context, by a path or by the search, leaves open the one descriptor that the context
  -- keeps, and none if there is no context: every other one is closed, whatever the nodes answer.
  pub open_context-Accounts :
      (path : Option (Option ℕ)) (env high : Option ℕ) (ns : List Node)
      → Accounts w 0 (open_context path env high ns).0 (owned w (open_context path env high ns).1)
  unfolding open_context
  open_context-Accounts path env high ns =
      let (es, r) = open_device path env ns in
      protected-Accounts high r es (open_device-Accounts path env ns)
