-- ===== src/Tests/Grab.antt =====
-- The capture path of src/drm_grab.c on small inputs.
use libdrmtap.Prelude.{
  ℕ, ◌≤◌, ◌≡◌, ◌≢◌, ◌↔◌, refl, arith, if◌then◌else◌, ◌==◌, some, none, true, false, [], ◌∷◌, ◌++◌,
}
use libdrmtap.Errno.{ok, err, einval}
use libdrmtap.Grab.Geometry.{validate_fb_dims, FrameFits, validate_fb_dims_iff}
use libdrmtap.Grab.Output.{Grow, Out, ensure_buf, ensure_out}
use libdrmtap.Grab.Output.Owned.{IsGrow, Outcome, Chosen, ensure_buf-Outcome, ensure_out-Chosen}
use libdrmtap.Grab.Scanout.{PlaneRect, Mode, Memo, scanout_width_of, narrowed}
use libdrmtap.Grab.Scanout.Decision.{IsPadding, scanout_width_of_lem}
use libdrmtap.Grab.Scanout.Caching.{World, Coherent, width_in, forget, scanout_width-Coherent}
use libdrmtap.Grab.Process
use libdrmtap.Grab.Process.{Backends, raw, detiled_reduced, auto_process}
use libdrmtap.Grab.Process.Honest.{Good, auto_process-Good}
use libdrmtap.Grab.Fast.Frame.{Fb2, Answers, FastCtx, cleanup_ctx}
use libdrmtap.Grab.Fast.Call.{fresh_slots, grab_all}
use libdrmtap.Grab.Fast.Ledger.{
  Resource, handle, descriptor, mapping, window, priv_state, total, granted, returned,
}
use libdrmtap.Grab.Fast.Slots.{IsSlots}
use libdrmtap.Grab.Fast.Runs.{teardown-Conserved, grab_all-IsSlots}

validate_fb_dims_iff_example : (validate_fb_dims 32 3840 2160 ≡ ok tt) ↔ FrameFits 3840 2160
validate_fb_dims_iff_example = validate_fb_dims_iff 32 3840 2160 (omega arith)

-- A heap with one block of 64 bytes at address 1, the buffer.
abbrev one_block : Grow
one_block = record {
  heap = record { next = 2; size_of = λ p. if p == 1 then 64 else 0 };
  buf = some 1;
  cap = 64;
}

one_block-IsGrow : IsGrow one_block
one_block-IsGrow = record {
  block = (omega arith, refl, omega arith, omega arith);
  unborn = λ p q. ground arith;
}

ensure_buf-Outcome_example : Outcome one_block 128 (ensure_buf true one_block 128)
ensure_buf-Outcome_example = ensure_buf-Outcome true one_block 128 one_block-IsGrow

abbrev own_only : Out
own_only = record { user_out = none; user_out_len = 0; deswizzle = one_block; out_gen = 7 }

ensure_out-Chosen_example : Chosen own_only 128 (ensure_out true own_only 128)
ensure_out-Chosen_example = ensure_out-Chosen true own_only 128 one_block-IsGrow

-- 1366 visible columns of a framebuffer padded to 1376.
abbrev padded : PlaneRect
padded = record {
  valid = true;
  src_x = 0;
  src_y = 0;
  src_w = 1366;
  src_h = 768;
  crtc_w = 1366;
  crtc_h = 768;
}

scanout_width_of_lem_example :
    let (out, why) = scanout_width_of 1376 (some padded) true in
    ((why ≡ narrowed) ↔ IsPadding 1376 (some padded) true)
    × ((why ≢ narrowed) → out ≡ 1376)
    × ((r : PlaneRect) → some padded ≡ some r → why ≡ narrowed → out ≡ r.src_w)
    × (out ≤ 1376)
scanout_width_of_lem_example = scanout_width_of_lem 1376 (some padded) true

abbrev cold : Memo
cold = record {
  crtc_id = 42;
  sw_cached = false;
  sw_key_crtc = 0;
  sw_key_hdisplay = 0;
  sw_key_fb_width = 0;
  sw_key_modifier = 0;
  sw_cached_width = 0;
  logged_scanout_crop = false;
}

abbrev at_1366 : Mode
at_1366 = record { mode_valid = true; hdisplay = 1366 }

abbrev laptop : World
laptop crtc hdisplay fb_width modifier = padded

abbrev warm : Memo
warm = record cold {
  sw_cached = true;
  sw_key_crtc = 42;
  sw_key_hdisplay = 1366;
  sw_key_fb_width = 1376;
  sw_cached_width = 1366;
}

warm-Coherent : Coherent laptop warm
unfolding scanout_width_of
warm-Coherent e = refl

scanout_width-Coherent_example :
    ((width_in laptop warm at_1366 1376 0).0 ≡ (width_in laptop (forget warm) at_1366 1376 0).0)
    × Coherent laptop (width_in laptop warm at_1366 1376 0).1
scanout_width-Coherent_example = scanout_width-Coherent laptop warm at_1366 1376 0 warm-Coherent

-- A framebuffer with a compression plane in its own buffer object: it is imported, mapped and
-- served again from its slot; then the display sleeps.
abbrev ccs_fb : Fb2
ccs_fb = record {
  handle = 5;
  aux_handles = 6 ∷ 0 ∷ 0 ∷ [];
  width = 1376;
  height = 768;
  pixel_format = 0x34325258;
  modifier = none;
  pitch = 5504;
  aux_pitches = 64 ∷ 0 ∷ 0 ∷ [];
  offsets = 0 ∷ 0 ∷ 0 ∷ 0 ∷ [];
}

abbrev awake : Answers
awake = record {
  primary_plane = 31;
  plane_fb = some 7;
  virtio = false;
  transfer = err einval;
  fb2 = ok ccs_fb;
  exported = ok 3;
  granted = true;
  dumb_map = none;
  cpu_map = some 4096;
  forced = false;
  egl = false;
  mode = some at_1366;
  rect = padded;
  process = ok;
}

abbrev asleep : Answers
asleep = record awake { plane_fb = some 0 }

abbrev opened : FastCtx
opened = record {
  is_render_only = false;
  slots = fresh_slots;
  fast_plane_id = 0;
  fast_last_fb_id = 0;
  fast_initialized = false;
  fast_no_cpu_map = false;
  fast_no_privilege = false;
  grab_plane_id = 0;
  planes = record { num_planes = 0; pitches = []; offsets = [] };
  memo = cold;
}

-- The second of every kind of handle.
abbrev tally : Resource → ℕ
tally (handle h) = if h == 6 then 1 else 0
tally (descriptor fd) = 10
tally (mapping p n) = 100
tally (window fd) = 1000
tally priv_state = 10000

teardown-Conserved_example :
    let (log, c) = grab_all (awake ∷ asleep ∷ awake ∷ []) opened in
    let (last, c') = cleanup_ctx c in
    (total (granted tally) (log ++ last) ≡ total (returned tally) (log ++ last))
    × (c'.slots ≡ fresh_slots)
teardown-Conserved_example = teardown-Conserved tally (awake ∷ asleep ∷ awake ∷ []) opened refl

grab_all-IsSlots_example : IsSlots (grab_all (awake ∷ awake ∷ []) opened).1.slots
grab_all-IsSlots_example = grab_all-IsSlots (awake ∷ awake ∷ []) opened refl

-- A 10-bit X-tiled scanout that only the CPU can read.
abbrev cpu_only : Backends
cpu_only = record {
  egl_available = false;
  out = ok tt;
  reduce = ok tt;
  egl_convert = ok false;
  known_driver = true;
  deswizzle = ok tt;
  convert_ten_bit = ok tt;
}

abbrev tiled_xr30 : Process.Frame
tiled_xr30 = record {
  data_at = raw;
  dma_buf_fd = some 3;
  width = 1920;
  stride = 7680;
  format = 0x30335258;
  modifier = 0x0100_0000_0000_0001;
}

abbrev detiled_xr24 : Process.Frame
detiled_xr24 = record tiled_xr30 { data_at = detiled_reduced; format = 0x34325258 }

auto_process-Good_example : Good false tiled_xr30 detiled_xr24
unfolding auto_process
auto_process-Good_example = auto_process-Good false cpu_only tiled_xr30 detiled_xr24 refl
