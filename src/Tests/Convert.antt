-- ===== src/Tests/Convert.antt =====
-- drmtap_convert_dmabuf of src/drm_grab.c on a padded frame.
use libdrmtap.Prelude.{◌≡◌, refl, some, none, true, false, [], ◌∷◌}
use libdrmtap.Errno.{ok, err, einval}
use libdrmtap.Grab.Geometry.{validate_fb_dims, validate_fb_size, format_min_bpp}
use libdrmtap.Grab.Output.{ensure_buf, ensure_out}
use libdrmtap.Grab.OneShot.{zero_frame}
use libdrmtap.Grab.OneShot.Call.{Desc}
use libdrmtap.Grab.Convert.{Probe, Answers, Staged, check_desc, aux_fit, convert_dmabuf}
use libdrmtap.Grab.Convert.Exits.{Exits}
use libdrmtap.Grab.Convert.Accepted.{Accepted, convert_dmabuf-Accepted}
use libdrmtap.Tests.Base.{fresh_out, painted}

abbrev shared : Desc
shared = record {
  dma_buf_fd = some 9;
  width = 64;
  height = 32;
  format = 0x34325258;
  modifier = 0;
  fb_id = 7;
  num_planes = 1;
  offsets = 0 ∷ 0 ∷ 0 ∷ 0 ∷ [];
  pitches = 320 ∷ 0 ∷ 0 ∷ 0 ∷ [];
  hdr_eotf = 0;
  hdr_max_nits = 0;
}

abbrev dma_buf : Probe
dma_buf = record { granted = true; seek = some 12288; stat = none }

abbrev without_egl : Answers
without_egl = record {
  first = dma_buf;
  egl = false;
  egl_convert = err einval;
  second = dma_buf;
  cpu_map = ok 4096;
  process = λ f. (ok tt, f);
  malloc = true;
  out = fresh_out;
  source = painted;
  garbage = λ i. 0;
}

abbrev nothing_staged : Staged
nothing_staged = record {
  planes = record { num_planes = 0; pitches = []; offsets = [] };
  cur_hdr_eotf = 0;
  cur_hdr_max_nits = 0;
}

converts : (convert_dmabuf without_egl shared zero_frame nothing_staged).0.1 ≡ ok tt
unfolding convert_dmabuf check_desc validate_fb_dims validate_fb_size format_min_bpp aux_fit
    ensure_out ensure_buf
converts = refl

convert_dmabuf-Accepted_example : Accepted without_egl shared
convert_dmabuf-Accepted_example =
    convert_dmabuf-Accepted without_egl shared zero_frame nothing_staged converts
