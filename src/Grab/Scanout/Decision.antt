-- ===== src/Grab/Scanout/Decision.antt =====
-- When the reported width is narrowed, and by how much.
use libdrmtap.Prelude.{
  ℕ, ◌≤◌, ◌<◌, ◌≡◌, ◌≢◌, ◌↔◌, Bool, Option, none, some, true, false, arith, refl,
}
use libdrmtap.Grab.Scanout.{narrowed, PlaneRect, scanout_width_of}

-- Pitch padding: the plane shows the first `src_w` columns of a wider linear framebuffer, from
-- its origin and at their own size.
abbrev pub IsPadding : ℕ → Option PlaneRect → Bool → Type 0
IsPadding fb_width none linear = ⊥
IsPadding fb_width (some r) linear =
    (linear ≡ true)
    × (r.valid ≡ true)
    × (r.src_x ≡ 0)
    × (r.src_y ≡ 0)
    × (r.src_w ≡ r.crtc_w)
    × (r.src_h ≡ r.crtc_h)
    × (0 < r.src_w)
    × (r.src_w < fb_width)

-- The width is narrowed exactly for pitch padding, then to the plane's source width, and in every
-- other case it is the framebuffer's; it is never more.
pub scanout_width_of_lem :
    (fb_width : ℕ) (rect : Option PlaneRect) (linear : Bool)
    → let (out, why) = scanout_width_of fb_width rect linear in
      ((why ≡ narrowed) ↔ IsPadding fb_width rect linear)
      × ((why ≢ narrowed) → out ≡ fb_width)
      × ((r : PlaneRect) → rect ≡ some r → why ≡ narrowed → out ≡ r.src_w)
      × (out ≤ fb_width)
unfolding scanout_width_of
scanout_width_of_lem fb_width none true =
    (((λ e. ground arith), λ f. absurd f), (λ n. refl), (λ r e f. absurd (cc e)), omega arith)
scanout_width_of_lem fb_width none false =
    (((λ e. cc e), λ f. absurd f), (λ n. refl), (λ r e f. absurd (cc e)), omega arith)
scanout_width_of_lem fb_width (some r) true = (
  ((λ e. ground arith), λ f. ground arith),
  (λ n. ground arith),
  (λ q e f. ground arith),
  ground arith,
)
scanout_width_of_lem fb_width (some r) false =
    (((λ e. ground arith), λ f. absurd (cc f.0)), (λ n. refl), (λ q e f. ground arith), omega arith)
