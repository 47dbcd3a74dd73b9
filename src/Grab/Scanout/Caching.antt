-- ===== src/Grab/Scanout/Caching.antt =====
-- The kept answer: serving it gives what reading the plane again would.
use libdrmtap.Prelude.{ℕ, ◌≡◌, some, true, false, arith, refl, ◌∙◌, inl, inr, Bool-cases, ◌==◌}
use libdrmtap.Grab.Scanout.{
  PlaneRect, Mode, Memo, scanout_width_of, scanout_width, is_linear, key_matches, worth_looking,
}

-- What the plane reads as, for each CRTC, mode width, framebuffer width and modifier.
abbrev pub World : Type 0
World = ℕ → ℕ → ℕ → ℕ → PlaneRect

abbrev pub decided : World → ℕ → ℕ → ℕ → ℕ → ℕ
decided world crtc hdisplay fb_width modifier =
    (scanout_width_of fb_width (some (world crtc hdisplay fb_width modifier))
      (is_linear modifier)).0

-- The kept answer is the decision for its key.
abbrev pub Coherent : World → Memo → Type 0
Coherent world m =
    m.sw_cached ≡ true
    → m.sw_cached_width
      ≡ decided world m.sw_key_crtc m.sw_key_hdisplay m.sw_key_fb_width m.sw_key_modifier

-- One call in such a world.
abbrev pub width_in : World → Memo → Mode → ℕ → ℕ → ℕ × Memo
width_in world m mode fb_width modifier =
    scanout_width m (some mode) (world m.crtc_id mode.hdisplay fb_width modifier) fb_width modifier

-- Forgetting what was kept.
abbrev pub forget : Memo → Memo
forget m = record m { sw_cached = false }

decided_eq :
    (world : World) {a b c d a' b' c' d' : ℕ}
    → a ≡ a'
    → b ≡ b'
    → c ≡ c'
    → d ≡ d'
    → decided world a b c d ≡ decided world a' b' c' d'
decided_eq world p q r s = cc

served :
    (world : World) (m : Memo) (mode : Mode) (fb_width modifier : ℕ)
    → Coherent world m
    → key_matches m mode.hdisplay fb_width modifier ≡ true
    → m.sw_cached_width ≡ decided world m.crtc_id mode.hdisplay fb_width modifier
served world m mode fb_width modifier v hit =
    v (ground arith)
    ∙ decided_eq world {a = m.sw_key_crtc} {b = m.sw_key_hdisplay} {c = m.sw_key_fb_width}
        {d = m.sw_key_modifier} (ground arith) (ground arith) (ground arith) (ground arith)

-- A call with a coherent memo answers as one with an empty memo, and leaves a coherent memo.
pub scanout_width-Coherent :
    (world : World) (m : Memo) (mode : Mode) (fb_width modifier : ℕ)
    → Coherent world m
    → ((width_in world m mode fb_width modifier).0
        ≡ (width_in world (forget m) mode fb_width modifier).0)
      × Coherent world (width_in world m mode fb_width modifier).1
unfolding scanout_width
scanout_width-Coherent world m mode fb_width modifier v = elim (Bool-cases (m.crtc_id == 0)) [
  | inl auto ↦ rw auto (refl, v)
  | inr set ↦ rw set (elim (Bool-cases (worth_looking mode fb_width)) [
    | inr plain ↦ rw plain (refl, v)
    | inl padded ↦ rw padded (elim (Bool-cases (key_matches m mode.hdisplay fb_width modifier)) [
      | inr miss ↦ rw miss (refl, λ e. refl)
      | inl hit ↦ rw hit (served world m mode fb_width modifier v hit, v)
    ])
  ])
]
