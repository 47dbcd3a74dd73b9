-- ===== src/Grab/Convert/Sound.antt =====
-- drmtap_convert_dmabuf: which descriptors it accepts, and what it does with them on every exit.
use libdrmtap.Prelude.{ℕ, ◌*◌, ◌≤◌, ◌<◌, ◌≡◌, ◌↔◌, ltb, ◌==◌, ◌||◌, false, arith}
use libdrmtap.Errno.{ok, einval, and_then, and_then-eq-ok, unless-eq-ok}
use libdrmtap.Grab.Geometry.{
  max_fb_bytes, FrameFits, validate_fb_dims, validate_fb_size, format_min_bpp, validate_fb_dims_iff,
  validate_fb_size_iff,
}
use libdrmtap.Grab.OneShot.ByHelper.{covers}
use libdrmtap.Grab.OneShot.Call.{Desc}
use libdrmtap.Grab.Convert.{num_planes, pitch, check_desc}

-- A descriptor that makes sense: at most four planes, a frame that fits, and rows that hold its width.
pub record IsDesc (d : Desc) : Type 0 where
  pub few : num_planes d ≤ 4
  pub frame : FrameFits d.width d.height
  pub size : (0 < pitch d) × (d.height * pitch d ≤ max_fb_bytes)
  pub wide : d.width * format_min_bpp d.format ≤ pitch d

covers_iff :
    (width stride format : ℕ)
    → (covers width stride format ≡ ok tt) ↔ (width * format_min_bpp format ≤ stride)
covers_iff width stride format = ((λ e. ground arith), λ h. ground arith)

dims_iff : (width height : ℕ) → (validate_fb_dims 64 width height ≡ ok tt) ↔ FrameFits width height
dims_iff width height = validate_fb_dims_iff 64 width height (omega arith)

-- The checks on the numbers of a descriptor, which come from another process, accept exactly those
-- that make sense.
pub check_desc_iff : (d : Desc) → (check_desc d ≡ ok tt) ↔ IsDesc d
unfolding check_desc
check_desc_iff d = ((λ e. accepted e), λ v. accepts v)
  where
    accepted : check_desc d ≡ ok tt → IsDesc d
    accepted e =
        let (guard, e1) = unless-eq-ok (ltb 4 (num_planes d) || (d.width == 0)) einval _ e in
        let (_, dims, e2) = and_then-eq-ok (validate_fb_dims 64 d.width d.height) _ e1 in
        let (_, size, e3) = and_then-eq-ok (validate_fb_size (pitch d) d.height) _ e2 in
        let sized = (validate_fb_size_iff (pitch d) d.height).0 size in
        record {
          few = ground (arith, guard);
          frame = (dims_iff d.width d.height).0 dims;
          size = (sized.0, sized.2);
          wide = (covers_iff d.width (pitch d) d.format).0 e3;
        }

    accepts : IsDesc d → check_desc d ≡ ok tt
    accepts v =
        let guard : (ltb 4 (num_planes d) || (d.width == 0)) ≡ false =
          ground (arith, v.few, v.frame) in
        let dims = (dims_iff d.width d.height).1 v.frame in
        let size = (validate_fb_size_iff (pitch d) d.height).1 (v.size.0, v.frame.1, v.size.1) in
        let wide = (covers_iff d.width (pitch d) d.format).1 v.wide in
        rw guard (rw (dims, and_then) (rw (size, and_then) wide))
