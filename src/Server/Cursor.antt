-- ===== src/Server/Cursor.antt =====
-- cursor_and_send of helper/drmtap-helper.c: the cursor plane of a CRTC, read with privilege.
pub mod Shown
use libdrmtap.Prelude.{
  ℕ, ◌*◌, ◌==◌, ◌&&◌, not, leb, Bool, true, false, if◌then◌else◌, u32, Option, none, some, List, [],
  ◌∷◌, ◌++◌,
}
use libdrmtap.Errno.{Ret, ok, err}
use libdrmtap.Memory.{Buffer}
use libdrmtap.Memory.Repack.{repack}
use libdrmtap.Grab.Fast.{Event, get_fb2, export_fd, map_at, sync_end, unmap, close_fd, gem_due}
use libdrmtap.Grab.Fast.Frame.{Fb2}
use libdrmtap.Grab.Fast.Import.{start_event}
use libdrmtap.Cursor.{
  Properties, get_property_value, or_zero, is_found, is_cursor_type, wire_hot_measured,
}
use libdrmtap.Server.{PlaneState, is_candidate}

-- helper_cursor_wire2_t
pub record Reply : Type 0 where
  pub x : ℕ
  pub y : ℕ
  pub hot_x : ℕ
  pub hot_y : ℕ
  pub width : ℕ
  pub height : ℕ
  pub visible : Bool
  pub data_size : ℕ
  pub hot_from_property : Bool

abbrev pub zero_reply : Reply
zero_reply = record {
  x = 0;
  y = 0;
  hot_x = 0;
  hot_y = 0;
  width = 0;
  height = 0;
  visible = false;
  data_size = 0;
  hot_from_property = false;
}

-- What is sent: so many bytes of the reply, and so many of the packed pixels.
pub data Sent : Type 0 where
  cursor_meta : ℕ → Reply → Sent
  cursor_pixels : ℕ → Option Buffer → Sent

-- What the kernel answers. `source` is the mapped memory, and `packed` what the static buffer held.
pub record Answers : Type 0 where
  pub planes : Option (List (Option PlaneState))
  pub props : ℕ → Option Properties
  pub fb2 : Ret Fb2
  pub exported : Ret ℕ
  pub cpu_map : Ret ℕ
  pub granted : Bool
  pub source : Buffer
  pub packed : ℕ → ℕ

-- The system calls, and what was sent. The call itself always returns 0.
abbrev pub Outcome : Type 0
Outcome = List Event × List Sent

-- The framebuffer and the id of the first cursor plane with a framebuffer, or zeros.
unfoldable pub search_cursor : ℕ → (ℕ → Option Properties) → List (Option PlaneState) → ℕ × ℕ
search_cursor target props [] = (0, 0)
search_cursor target props (none ∷ ps) = search_cursor target props ps
search_cursor target props (some p ∷ ps) =
    let later = search_cursor target props ps in
    if is_candidate target p && is_cursor_type (get_property_value "type" (props p.plane_id))
    then (p.fb_id, p.plane_id)
    else later

abbrev pub packed_size : ℕ
packed_size = 256 * 256 * 4

-- At most 256 by 256, and rows that hold the width.
abbrev pub is_tiny : Fb2 → Bool
is_tiny f =
    leb f.width 256 && (leb f.height 256 && (not (f.pitch == 0) && leb (f.width * 4) f.pitch))

-- An END only for a START that took.
abbrev pub end_started : Bool → ℕ → List Event
end_started true fd = sync_end fd ∷ []
end_started false fd = []

-- The older layout is a prefix of the newer.
abbrev pub reply_size : Bool → ℕ
reply_size true = 36
reply_size false = 32

module _ (a : Answers) (extended : Bool) where
  -- send_cursor_meta, and no pixels
  abbrev pub send_cursor_meta : Reply → List Sent
  send_cursor_meta m = cursor_meta (reply_size extended) m ∷ []

  -- Position and hotspot.
  abbrev pub located : ℕ → Reply
  located plane =
      let hot_x = get_property_value "HOTSPOT_X" (a.props plane) in
      let hot_y = get_property_value "HOTSPOT_Y" (a.props plane) in
      record zero_reply {
        x = u32 (or_zero (get_property_value "CRTC_X" (a.props plane)));
        y = u32 (or_zero (get_property_value "CRTC_Y" (a.props plane)));
        hot_x = u32 (or_zero hot_x);
        hot_y = u32 (or_zero hot_y);
        hot_from_property = wire_hot_measured (is_found hot_x) (is_found hot_y);
      }

  abbrev pub packed_pixels : Fb2 → Option Buffer
  packed_pixels f =
      repack a.source (record { len = packed_size; at = a.packed }) f.width f.height f.pitch

  abbrev pub on_mapped : Ret ℕ → ℕ → Fb2 → Reply → Outcome
  on_mapped (err e) fd f m = (close_fd fd ∷ gem_due f.handle, send_cursor_meta m)
  on_mapped (ok p) fd f m =
      let size = f.pitch * f.height in
      let tight = f.width * f.height * 4 in
      (
        map_at p size
            ∷ start_event a.granted fd
            ∷ (end_started a.granted fd ++ (unmap p size ∷ close_fd fd ∷ gem_due f.handle)),
        cursor_meta (reply_size extended) (record m { visible = true; data_size = u32 tight })
            ∷ cursor_pixels tight (packed_pixels f)
            ∷ [],
      )

  abbrev pub on_exported : Ret ℕ → Fb2 → Reply → Outcome
  on_exported (err e) f m = (gem_due f.handle, send_cursor_meta m)
  on_exported (ok fd) f m = let (es, sent) = on_mapped a.cpu_map fd f m in (export_fd fd ∷ es, sent)

  abbrev pub if_tiny : Bool → Fb2 → Reply → Outcome
  if_tiny false f m = (gem_due f.handle, send_cursor_meta m)
  if_tiny true f m = on_exported a.exported f m

  abbrev pub if_owned : Bool → Fb2 → Reply → Outcome
  if_owned true f m = ([], send_cursor_meta m)
  if_owned false f m = if_tiny (is_tiny f) f (record m { width = f.width; height = f.height })

  abbrev pub on_cursor_fb2 : Ret Fb2 → Reply → Outcome
  on_cursor_fb2 (err e) m = ([], send_cursor_meta m)
  on_cursor_fb2 (ok f) m =
      let (es, sent) = if_owned (f.handle == 0) f m in (get_fb2 f.handle f.aux_handles ∷ es, sent)

  -- No cursor plane with a framebuffer: a hidden cursor.
  abbrev pub on_cursor : Bool → ℕ → Outcome
  on_cursor true plane = ([], send_cursor_meta zero_reply)
  on_cursor false plane = on_cursor_fb2 a.fb2 (located plane)

  abbrev pub among_planes : Option (List (Option PlaneState)) → ℕ → Outcome
  among_planes none target = ([], send_cursor_meta zero_reply)
  among_planes (some ps) target =
      let (fb, plane) = search_cursor target a.props ps in on_cursor (fb == 0) plane

  unfoldable pub cursor_and_send : ℕ → Outcome
  cursor_and_send target = among_planes a.planes target
