-- ===== src/Display/Topology.antt =====
-- drmtap_list_displays and drmtap_displays_changed.
pub mod Listing
use libdrmtap.Prelude.{
  ℕ, zero, suc, ◌+◌, ◌*◌, ◌^◌, Bool, ◌&&◌, not, true, false, ltb, ◌==◌, if◌then◌else◌, u32, u64,
  bit_xor, Option, none, some, List, [], ◌∷◌, ◌++◌, length,
}
use libdrmtap.Errno.{Ret, ok, err, enodev}

-- A mode of a connector's list.
pub record ModeInfo : Type 0 where
  pub preferred : Bool
  pub hdisplay : ℕ
  pub vdisplay : ℕ
  pub vrefresh : ℕ

-- drmModeConnector. `encoder_crtc` is the CRTC that the legacy encoder link gives and `atomic_crtc`
-- the value of the CRTC_ID property, 0 where there is none.
pub record Connector : Type 0 where
  pub connector_id : ℕ
  pub connection : ℕ
  pub connector_type : ℕ
  pub connector_type_id : ℕ
  pub encoder_crtc : ℕ
  pub atomic_crtc : ℕ
  pub modes : List ModeInfo

abbrev pub connected : ℕ
connected = 1

-- drmModeCrtc
pub record Crtc : Type 0 where
  pub x : ℕ
  pub y : ℕ
  pub mode_valid : Bool
  pub hdisplay : ℕ
  pub vdisplay : ℕ
  pub vrefresh : ℕ

-- The card, as a probing and a cached read both see it: its connectors by id, `none` being one that
-- could not be read, its number of CRTCs and the CRTCs.
pub record Card : Type 0 where
  pub connectors : List (ℕ × Option Connector)
  pub count_crtcs : ℕ
  pub crtcs : ℕ → Option Crtc

-- drmtap_display; the name is the connector's type and its number.
pub record Display : Type 0 where
  pub connector_id : ℕ
  pub crtc_id : ℕ
  pub active : Bool
  pub name : ℕ × ℕ
  pub x : ℕ
  pub y : ℕ
  pub width : ℕ
  pub height : ℕ
  pub refresh_hz : ℕ

-- The legacy link, or the atomic property where the link gives 0.
unfoldable pub bound_crtc : Connector → ℕ
bound_crtc c = if c.encoder_crtc == 0 then c.atomic_crtc else c.encoder_crtc

abbrev with_size : Display → ℕ → ℕ → ℕ → Display
with_size d w h hz = record d { width = w; height = h; refresh_hz = hz }

abbrev mode_of_crtc : Option Crtc → Display → Display
mode_of_crtc none d = d
mode_of_crtc (some c) d =
    let d' = record d { x = c.x; y = c.y } in
    if c.mode_valid then with_size d' c.hdisplay c.vdisplay c.vrefresh else d'

-- The first preferred mode, if there is one.
unfoldable pub preferred_mode : List ModeInfo → Display → Display
preferred_mode [] d = d
preferred_mode (m ∷ ms) d =
    let later = preferred_mode ms d in
    if m.preferred then with_size d m.hdisplay m.vdisplay m.vrefresh else later

abbrev first_mode : List ModeInfo → Display → Display
first_mode [] d = d
first_mode (m ∷ ms) d = with_size d m.hdisplay m.vdisplay m.vrefresh

-- Without an active mode: the preferred one, or else the first.
abbrev or_first_mode : List ModeInfo → Display → Display
or_first_mode ms d = if d.width == 0 then first_mode ms d else d

unfoldable pub or_listed_mode : List ModeInfo → Display → Display
or_listed_mode ms d = if d.width == 0 then or_first_mode ms (preferred_mode ms d) else d

unfoldable pub display_of : Card → Connector → Display
display_of card c =
    let crtc_id = bound_crtc c in
    let d : Display = record {
      connector_id = c.connector_id;
      crtc_id = crtc_id;
      active = not (crtc_id == 0);
      name = (c.connector_type, c.connector_type_id);
      x = 0;
      y = 0;
      width = 0;
      height = 0;
      refresh_hz = 0;
    } in
    or_listed_mode c.modes (if crtc_id == 0 then d else mode_of_crtc (card.crtcs crtc_id) d)

-- `found` and the entries of `out`, of which there are at most `max_count`.
pub record Found : Type 0 where
  pub found : ℕ
  pub out : List Display

abbrev pub enter : Bool → ℕ → Display → Found → Found
enter false max_count d s = s
enter true max_count d s = record {
  found = s.found + 1;
  out = if ltb s.found max_count then s.out ++ (d ∷ []) else s.out;
}

abbrev pub visit : Card → ℕ → Option Connector → Found → Found
visit card max_count none s = s
visit card max_count (some c) s = enter (c.connection == connected) max_count (display_of card c) s

unfoldable pub visit_all : Card → ℕ → List (ℕ × Option Connector) → Found → Found
visit_all card max_count [] s = s
visit_all card max_count ((id, c) ∷ cs) s = visit_all card max_count cs (visit card max_count c s)

-- TH_FOLD, and the hash of what a hotplug or a modeset changes.
abbrev pub fold : ℕ → ℕ → ℕ
fold v h = u64 (bit_xor h (u32 v) * 1099511628211)

abbrev pub flag : Bool → ℕ
flag true = 1
flag false = 0

abbrev pub fold_crtc : Option Crtc → ℕ → ℕ
fold_crtc none h = h
fold_crtc (some c) h =
    fold c.vrefresh (fold c.vdisplay (fold c.hdisplay (fold (flag c.mode_valid) h)))

abbrev pub fold_connector : Card → ℕ → Option Connector → ℕ → ℕ
fold_connector card id none h = fold id h
fold_connector card id (some c) h =
    let h' = fold c.atomic_crtc (fold c.connection (fold c.connector_id h)) in
    if c.atomic_crtc == 0 then h' else fold_crtc (card.crtcs c.atomic_crtc) h'

unfoldable pub fold_connectors : Card → List (ℕ × Option Connector) → ℕ → ℕ
fold_connectors card [] h = h
fold_connectors card ((id, c) ∷ cs) h = fold_connectors card cs (fold_connector card id c h)

unfoldable pub topology_hash : Card → ℕ
topology_hash card =
    fold_connectors card card.connectors
      (fold card.count_crtcs (fold (length card.connectors) 1469598103934665603))

-- The calls on a context: the cached hash goes in and comes out, and `none` is a card whose
-- resources could not be had.
unfoldable pub list_displays : Option Card → ℕ → ℕ → Ret Found × ℕ
list_displays none max_count cached = (err enodev, cached)
list_displays (some card) max_count cached = (
  ok (visit_all card max_count card.connectors (record { found = 0; out = [] })),
  topology_hash card,
)

unfoldable pub displays_changed : Option Card → ℕ → Ret Bool × ℕ
displays_changed none cached = (err enodev, cached)
displays_changed (some card) cached = (ok (not (topology_hash card == cached)), topology_hash card)
