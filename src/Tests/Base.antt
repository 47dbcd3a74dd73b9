-- ===== src/Tests/Base.antt =====
-- What the tests of more than one part share: a context, a framebuffer, buffers.
use libdrmtap.Prelude.{ℕ, ◌*◌, ◌==◌, if◌then◌else◌, none, false, [], ◌∷◌}
use libdrmtap.Memory.{Buffer}
use libdrmtap.Grab.Output.{Grow, Out}
use libdrmtap.Grab.Scanout.{Memo}
use libdrmtap.Grab.Fast.Frame.{Fb2}
use libdrmtap.Grab.Fast.Ledger.{Resource, handle, descriptor, mapping, window, priv_state}

-- A weight that tells kinds of resources apart, and handle 5 from the others.
abbrev pub weights : Resource → ℕ
weights (handle h) = if h == 5 then 1 else 7
weights (descriptor fd) = 10
weights (mapping p n) = 100
weights (window fd) = 1000
weights priv_state = 10000

abbrev pub no_memo : Memo
no_memo = record {
  crtc_id = 0;
  sw_cached = false;
  sw_key_crtc = 0;
  sw_key_hdisplay = 0;
  sw_key_fb_width = 0;
  sw_key_modifier = 0;
  sw_cached_width = 0;
  logged_scanout_crop = false;
}

abbrev pub no_buffer : Grow
no_buffer = record { heap = record { next = 1; size_of = λ p. 0 }; buf = none; cap = 0 }

abbrev pub fresh_out : Out
fresh_out = record { user_out = none; user_out_len = 0; deswizzle = no_buffer; out_gen = 0 }

-- 64 by 32 pixels of 4 bytes, with 64 bytes of padding in each row.
abbrev pub padded_fb : Fb2
padded_fb = record {
  handle = 5;
  aux_handles = [];
  width = 64;
  height = 32;
  pixel_format = 0x34325258;
  modifier = none;
  pitch = 320;
  aux_pitches = [];
  offsets = 0 ∷ [];
}

abbrev pub painted : Buffer
painted = record { len = 320 * 32; at = λ i. i }
