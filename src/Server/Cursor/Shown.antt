-- ===== src/Server/Cursor/Shown.antt =====
-- What cursor_and_send sends and gives back, on every exit.
use native.Mathlib.Nat.{mul-le-mul_left, mul-le-mul_right}
use libdrmtap.Prelude.{
  ℕ, ◌+◌, ◌*◌, ◌≤◌, ◌≡◌, ◌==◌, Bool, true, false, Option, none, some, List, [], ◌∷◌, ◌++◌, refl,
  sym, u32, subst, arith,
}
use libdrmtap.Errno.{Ret, ok, err}
use libdrmtap.Memory.{Buffer}
use libdrmtap.Memory.Repack.{Repacked, repack-Repacked}
use libdrmtap.Grab.Fast.{Event, unmap, close_fd, gem_due}
use libdrmtap.Grab.Fast.Frame.{Fb2}
use libdrmtap.Grab.Fast.Import.{start_event}
use libdrmtap.Grab.Fast.Ledger.{Resource, descriptor, total, granted, returned, gem_weight}
use libdrmtap.Cursor.{
  Properties, placed, set_hot_provenance, cursor_hotspot_valid, is_found, get_property_value,
  wire_hot_measured,
}
use libdrmtap.Cursor.Sample.{hotspot_valid-set}
use libdrmtap.Cursor as Direct
use libdrmtap.Server.{PlaneState}
use libdrmtap.Server.Grab.Ledger.{Spends, unclosed, gives_handle}
use libdrmtap.Server.Cursor.{
  Reply, Sent, cursor_meta, cursor_pixels, Answers, search_cursor, packed_size, is_tiny,
  end_started, reply_size, located, packed_pixels, on_mapped, on_exported, if_tiny, if_owned,
  on_cursor_fb2, on_cursor, among_planes, cursor_and_send, Outcome,
}

-- The mapping is as large as the rows of the framebuffer.
abbrev pub IsMapped : Ret Fb2 → Buffer → Type 0
IsMapped (err e) s = Unit
IsMapped (ok f) s = f.height * f.pitch ≤ s.len

-- What the library reads itself on the same properties, and what it then says of the hotspot.
abbrev pub AsRead : Direct.Answers → ℕ → Reply → Type 0
AsRead d plane m =
    let c = placed d plane in
    (m.x ≡ c.x)
    × (m.y ≡ c.y)
    × (m.hot_x ≡ c.hot_x)
    × (m.hot_y ≡ c.hot_y)
    × (cursor_hotspot_valid c ≡ ok m.hot_from_property)

-- The pixels of the framebuffer without padding.
abbrev pub Packed : Answers → Ret Fb2 → Reply → Option Buffer → Type 0
Packed a (err e) m k = ⊥
Packed a (ok f) m k =
    (m.width ≡ f.width)
    × (m.height ≡ f.height)
    × Repacked a.source (record { len = packed_size; at = a.packed }) f.width f.height f.pitch k

-- A hidden cursor and no pixels, or a visible one with as many bytes as the reply says.
abbrev pub Shows : Answers → Direct.Answers → Bool → ℕ → List Sent → Type 0
Shows a d extended plane (cursor_meta n m ∷ []) =
    (n ≡ reply_size extended) × (m.visible ≡ false) × (m.data_size ≡ 0)
Shows a d extended plane (cursor_meta n m ∷ cursor_pixels bytes k ∷ []) =
    (n ≡ reply_size extended)
    × (m.visible ≡ true)
    × AsRead d plane m
    × (m.data_size ≡ bytes)
    × (bytes ≡ m.width * m.height * 4)
    × (bytes ≤ packed_size)
    × Packed a a.fb2 m k
Shows a d extended plane _ = ⊥

-- The plane that the search ends at.
abbrev pub chosen : ℕ → (ℕ → Option Properties) → Option (List (Option PlaneState)) → ℕ
chosen target props none = 0
chosen target props (some ps) = (search_cursor target props ps).1

abbrev pub Fits : (Resource → ℕ) → Answers → Direct.Answers → Bool → ℕ → ℕ → Outcome → Type 0
Fits w a d extended n plane o =
    Spends w n o.0 × Shows a (record d { props = a.props }) extended plane o.1

module _ (w : Resource → ℕ) (a : Answers) (d : Direct.Answers) (extended : Bool) where
  provenance_same :
      (plane : ℕ)
      → cursor_hotspot_valid (placed (record d { props = a.props }) plane)
        ≡ ok (located a extended plane).hot_from_property
  unfolding placed
  provenance_same plane =
      let m = located a extended plane in
      hotspot_valid-set m.hot_from_property (record Direct.cleared {
        x = m.x;
        y = m.y;
        hot_x = m.hot_x;
        hot_y = m.hot_y;
        visible = true;
      })

  located-AsRead :
      (plane : ℕ) → AsRead (record d { props = a.props }) plane (located a extended plane)
  unfolding placed set_hot_provenance
  located-AsRead plane = (refl, refl, refl, refl, provenance_same plane)

  end_started-weight :
      (fd : ℕ) (es : List Event) (b : Bool)
      → total (granted w) (start_event b fd ∷ (end_started b fd ++ es))
          + total (returned w) es
          + total (unclosed w) es
        ≡ total (granted w) es
          + total (returned w) (start_event b fd ∷ (end_started b fd ++ es))
          + total (unclosed w) (start_event b fd ∷ (end_started b fd ++ es))
  end_started-weight fd es true = omega arith
  end_started-weight fd es false = omega arith

  on_mapped-Fits :
      (p : Ret ℕ) (fd : ℕ) (f : Fb2) (plane : ℕ)
      → a.fb2 ≡ ok f
      → is_tiny f ≡ true
      → IsMapped (ok f) a.source
      → Fits w a d extended (w (descriptor fd) + gem_weight w f.handle) plane (
          on_mapped a extended p fd f
            (record (located a extended plane) { width = f.width; height = f.height }))
  on_mapped-Fits (err e) fd f plane given tiny held =
      (omega (arith, gives_handle w f), (refl, refl, refl))
  on_mapped-Fits (ok p) fd f plane given tiny held =
      let size = f.pitch * f.height in
      let es = unmap p size ∷ close_fd fd ∷ gem_due f.handle in
      let bounds : (f.width ≤ 256) × (f.height ≤ 256) × (f.width * 4 ≤ f.pitch) =
        ground (arith, tiny) in
      let d' : Buffer = record { len = packed_size; at = a.packed } in
      let m : Reply = record (located a extended plane) {
        width = f.width;
        height = f.height;
        visible = true;
        data_size = u32 (f.width * f.height * 4);
      } in
      let area : f.width * f.height * 4 ≤ packed_size =
        omega (arith, mul-le-mul_left f.width bounds.1, mul-le-mul_right 256 bounds.0) in
      (
        omega (arith, gives_handle w f, end_started-weight fd es a.granted),
        (
          refl,
          refl,
          located-AsRead plane,
          omega (arith, area),
          refl,
          area,
          subst (λ r. Packed a r m (packed_pixels a extended f)) (sym given)
              (
                refl,
                refl,
                repack-Repacked a.source d' f.width f.height f.pitch bounds.2 (grind (arith, area))
                    held,
              ),
        ),
      )

  on_exported-Fits :
      (r : Ret ℕ) (f : Fb2) (plane : ℕ)
      → a.fb2 ≡ ok f
      → is_tiny f ≡ true
      → IsMapped (ok f) a.source
      → Fits w a d extended (gem_weight w f.handle) plane (
          on_exported a extended r f
            (record (located a extended plane) { width = f.width; height = f.height }))
  on_exported-Fits (err e) f plane given tiny held = (gives_handle w f, (refl, refl, refl))
  on_exported-Fits (ok fd) f plane given tiny held =
      let rest = on_mapped-Fits a.cpu_map fd f plane given tiny held in
      (omega (arith, rest.0), rest.1)

  if_tiny-Fits :
      (tiny : Bool) (f : Fb2) (plane : ℕ)
      → a.fb2 ≡ ok f
      → is_tiny f ≡ tiny
      → IsMapped (ok f) a.source
      → Fits w a d extended (gem_weight w f.handle) plane (
          if_tiny a extended tiny f
            (record (located a extended plane) { width = f.width; height = f.height }))
  if_tiny-Fits false f plane given e held = (gives_handle w f, (refl, refl, refl))
  if_tiny-Fits true f plane given e held = on_exported-Fits a.exported f plane given e held

  if_owned-Fits :
      (bare : Bool) (f : Fb2) (plane : ℕ)
      → a.fb2 ≡ ok f
      → (f.handle == 0) ≡ bare
      → IsMapped (ok f) a.source
      → Fits w a d extended
          (gem_weight w f.handle)
          plane
          (if_owned a extended bare f (located a extended plane))
  if_owned-Fits true f plane given e held = (ground (arith, e), (refl, refl, refl))
  if_owned-Fits false f plane given e held = if_tiny-Fits (is_tiny f) f plane given refl held

  on_cursor_fb2-Fits :
      (r : Ret Fb2) (plane : ℕ)
      → a.fb2 ≡ r
      → IsMapped r a.source
      → Fits w a d extended 0 plane (on_cursor_fb2 a extended r (located a extended plane))
  on_cursor_fb2-Fits (err e) plane given held = (refl, (refl, refl, refl))
  on_cursor_fb2-Fits (ok f) plane given held =
      let rest = if_owned-Fits (f.handle == 0) f plane given refl held in
      (grind (arith, rest.0), rest.1)

  on_cursor-Fits :
      (none_found : Bool) (plane : ℕ)
      → IsMapped a.fb2 a.source
      → Fits w a d extended 0 plane (on_cursor a extended none_found plane)
  on_cursor-Fits true plane held = (refl, (refl, refl, refl))
  on_cursor-Fits false plane held = on_cursor_fb2-Fits a.fb2 plane refl held

  among_planes-Fits :
      (ps : Option (List (Option PlaneState))) (target : ℕ)
      → IsMapped a.fb2 a.source
      → Fits w a d extended 0 (chosen target a.props ps) (among_planes a extended ps target)
  among_planes-Fits none target held = (refl, (refl, refl, refl))
  among_planes-Fits (some ps) target held =
      let found = search_cursor target a.props ps in on_cursor-Fits (found.0 == 0) found.1 held

-- A cursor request to the helper process, given that the mapping of the cursor framebuffer is as large
-- as its rows, is answered by one reply of the layout that was asked for: a hidden cursor and no pixels,
-- or a visible one with exactly as many bytes of pixels as the reply says, which are the framebuffer's
-- without padding and at most 256 by 256 pixels. The position, the hotspot and whether it was measured
-- are then what the library itself would read from the same plane. Every descriptor, mapping and window
-- is given back, and the handle of plane 0.
pub cursor_and_send-Fits :
    (w : Resource → ℕ) (a : Answers) (d : Direct.Answers) (extended : Bool) (target : ℕ)
    → IsMapped a.fb2 a.source
    → Fits w a d extended 0 (chosen target a.props a.planes) (cursor_and_send a extended target)
unfolding cursor_and_send
cursor_and_send-Fits w a d extended target held =
    among_planes-Fits w a d extended a.planes target held
