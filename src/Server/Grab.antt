-- ===== src/Server/Grab.antt =====
-- grab_and_send of helper/drmtap-helper.c: a framebuffer goes to the library as a descriptor or as
-- pixels, or an error does.
pub mod Ledger
use libdrmtap.Prelude.{
  ℕ, ◌+◌, ◌*◌, ◌/◌, ◌==◌, ◌&&◌, ◌||◌, not, ltb, Bool, true, false, if◌then◌else◌, u32, Option, none,
  some, List, [], ◌∷◌, ◌++◌,
}
use libdrmtap.Errno.{Ret, ok, err}
use libdrmtap.Pixel.Tiling.{mod_linear}
use libdrmtap.Grab.Geometry.{max_fb_bytes}
use libdrmtap.Grab.Fast.{Event, get_fb2, export_fd, map_at, unmap, close_fd, gem_due}
use libdrmtap.Grab.Fast.Frame.{Fb2, fb2_effective_modifier}
use libdrmtap.Server.{PlaneState, Planes, State, Found, search_planes}

-- struct grab_metadata
pub record Meta : Type 0 where
  pub width : ℕ
  pub height : ℕ
  pub stride : ℕ
  pub format : ℕ
  pub fb_id : ℕ
  pub data_size : ℕ
  pub modifier : ℕ
  pub seq : ℕ
  pub timestamp_ms : ℕ
  pub flags : ℕ
  pub hdr_eotf : ℕ
  pub hdr_max_nits : ℕ

abbrev pub zero_meta : Meta
zero_meta = record {
  width = 0;
  height = 0;
  stride = 0;
  format = 0;
  fb_id = 0;
  data_size = 0;
  modifier = 0;
  seq = 0;
  timestamp_ms = 0;
  flags = 0;
  hdr_eotf = 0;
  hdr_max_nits = 0;
}

abbrev pub flag_has_dmabuf : ℕ
flag_has_dmabuf = 1

abbrev pub flag_virgl : ℕ
flag_virgl = 2

-- What is handed to the socket: metadata, metadata with a descriptor, and a number of pixel bytes.
pub data Output : Type 0 where
  meta_out : Meta → Output
  fd_out : Meta → ℕ → Output
  pixels_out : ℕ → Output

-- What the kernel and the socket answer. `features` is the probe for virgl, if it is there.
pub record Answers : Type 0 where
  pub planes : Planes
  pub fb2 : Ret Fb2
  pub features : Option ℕ
  pub hdr : ℕ → ℕ × ℕ
  pub clock_ms : ℕ
  pub exported : Ret ℕ
  pub fd_sent : Bool
  pub map_dumb : Bool
  pub cpu_map : Option ℕ
  pub meta_sent : Bool
  pub pixels_sent : Bool

-- The system calls, what went to the socket, whether the call returned 0, and the static variables.
abbrev pub Outcome : Type 0
Outcome = List Event × List Output × Bool × State

abbrev pub after : List Event → Outcome → Outcome
after es (fs, out, r, s) = (es ++ fs, out, r, s)

-- send_error and send_error_errno
abbrev pub send_error : List Event → State → Outcome
send_error es s = (es, meta_out zero_meta ∷ [], false, s)

abbrev pub is_too_large : ℕ → ℕ → Bool
is_too_large pitch height = (pitch == 0) || ((height == 0) || ltb (max_fb_bytes / pitch) height)

abbrev pub has_features : Option ℕ → Bool
has_features none = false
has_features (some n) = not (n == 0)

-- The probe for virgl is made once.
abbrev pub detect : Bool → Bool → Option ℕ → State → State
detect true false features s = record s {
  virtio_detected = true;
  virtio_virgl = s.virtio_virgl || has_features features;
}
detect true true features s = s
detect false known features s = s

module _ (a : Answers) (is_virtio : Bool) where
  abbrev pub metadata : Fb2 → Found → State → Meta
  metadata f found s = record {
    width = f.width;
    height = f.height;
    stride = f.pitch;
    format = f.pixel_format;
    fb_id = found.fb_id;
    data_size = 0;
    modifier = fb2_effective_modifier f.modifier;
    seq = s.seq_counter;
    timestamp_ms = a.clock_ms;
    flags = 0;
    hdr_eotf = (a.hdr found.crtc_id).0;
    hdr_max_nits = (a.hdr found.crtc_id).1;
  }

  -- The pixel path: the metadata, and the pixels if that was sent.
  abbrev pub pixels_after : Bool → ℕ → List Output
  pixels_after true size = pixels_out size ∷ []
  pixels_after false size = []

  abbrev pub send_pixels : Fb2 → Meta → ℕ → State → Outcome
  send_pixels f m p s =
      let size = f.pitch * f.height in
      (
        map_at p size ∷ unmap p size ∷ gem_due f.handle,
        meta_out (record m { flags = 0; data_size = u32 size }) ∷ pixels_after a.meta_sent size,
        a.meta_sent && a.pixels_sent,
        s,
      )

  abbrev pub map_pixels : Bool → Option ℕ → Fb2 → Meta → State → Outcome
  map_pixels false p f m s = send_error (gem_due f.handle) s
  map_pixels true none f m s = send_error (gem_due f.handle) s
  map_pixels true (some p) f m s = send_pixels f m p s

  -- The descriptor path; for virgl there is no other.
  abbrev pub virgl_flags : Bool → ℕ
  virgl_flags true = flag_has_dmabuf + flag_virgl
  virgl_flags false = flag_has_dmabuf

  abbrev pub or_pixels : Bool → Fb2 → Meta → State → Outcome
  or_pixels true f m s = send_error (gem_due f.handle) s
  or_pixels false f m s = map_pixels a.map_dumb a.cpu_map f m s

  abbrev pub on_prime : Ret ℕ → Fb2 → Meta → State → Outcome
  on_prime (ok fd) f m s = (
    export_fd fd ∷ close_fd fd ∷ gem_due f.handle,
    fd_out (record m { flags = virgl_flags s.virtio_virgl; data_size = 0 }) fd ∷ [],
    a.fd_sent,
    s,
  )
  on_prime (err e) f m s = or_pixels s.virtio_virgl f m s

  abbrev pub by_layout : Bool → Fb2 → Meta → State → Outcome
  by_layout true f m s = on_prime a.exported f m s
  by_layout false f m s = map_pixels a.map_dumb a.cpu_map f m s

  -- The frame is stamped, once it is known that there is one.
  abbrev pub stamped : Fb2 → Found → State → Outcome
  stamped f found s =
      let s' = record s { seq_counter = u32 (s.seq_counter + 1) } in
      let m = metadata f found s' in by_layout (not (m.modifier == mod_linear) || is_virtio) f m s'

  abbrev pub on_size : Bool → Fb2 → Found → State → Outcome
  on_size true f found s = send_error (gem_due f.handle) s
  on_size false f found s = stamped f found (detect is_virtio s.virtio_detected a.features s)

  abbrev pub on_handle : Bool → Fb2 → Found → State → Outcome
  on_handle true f found s = send_error [] s
  on_handle false f found s = on_size (is_too_large f.pitch f.height) f found s

  abbrev pub on_scanout : Ret Fb2 → Found → State → Outcome
  on_scanout (err e) found s = send_error [] s
  on_scanout (ok f) found s =
      after (get_fb2 f.handle f.aux_handles ∷ []) (on_handle (f.handle == 0) f found s)

  abbrev pub on_found : Bool → Found → State → Outcome
  on_found true found s = send_error [] s
  on_found false found s = on_scanout a.fb2 found s

  abbrev pub on_planes : Option (List (Option PlaneState)) → ℕ → State → Outcome
  on_planes none target s = send_error [] s
  on_planes (some ps) target s =
      let found =
        search_planes target a.planes ps
          (record { fb_id = 0; crtc_id = 0; kept = s.primary_ids }) in
      on_found (found.fb_id == 0) found (record s { primary_ids = found.kept })

  unfoldable pub grab_and_send : ℕ → State → Outcome
  grab_and_send target s = on_planes a.planes.planes target s
