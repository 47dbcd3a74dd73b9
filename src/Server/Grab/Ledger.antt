-- ===== src/Server/Grab/Ledger.antt =====
-- What grab_and_send gives back, and the shape of its reply, on every exit.
use libdrmtap.Prelude.{
  ℕ, ◌+◌, ◌*◌, ◌≤◌, ◌<◌, ◌≡◌, ◌==◌, bit_and, Bool, false, List, [], ◌∷◌, refl, inl, inr, Bool-cases,
  arith,
}
use libdrmtap.Grab.Geometry.{max_fb_bytes}
use libdrmtap.Grab.Fast.{Event, get_fb2, gem_due}
use libdrmtap.Grab.Fast.Frame.{Fb2}
use libdrmtap.Grab.Fast.Ledger.{Resource, total, granted, returned, gem_weight, minted}
use libdrmtap.Server.Grab.{flag_has_dmabuf, Output, meta_out, fd_out, pixels_out, Outcome}

-- The handles of planes 1 to 3 with buffer objects of their own, which nothing closes.
abbrev pub unclosed : (Resource → ℕ) → Event → ℕ
unclosed w (get_fb2 h hs) = minted w (h ∷ []) hs
unclosed w _ = 0

abbrev pub Spends : (Resource → ℕ) → ℕ → List Event → Type 0
Spends w n es = n + total (granted w) es ≡ total (returned w) es + total (unclosed w) es

-- One reply: an error, which is metadata without a size and not a success; a descriptor, flagged and
-- without a size; or pixels, as many as the metadata says, which is one whole frame. Metadata alone is
-- an error too, or could not be sent.
abbrev pub IsReply : List Output → Bool → Type 0
IsReply (meta_out m ∷ []) r = r ≡ false
IsReply (fd_out m fd ∷ []) r = (bit_and m.flags flag_has_dmabuf ≡ 1) × (m.data_size ≡ 0)
IsReply (meta_out m ∷ pixels_out n ∷ []) r =
    (m.flags ≡ 0) × (m.data_size ≡ n) × (m.stride * m.height ≡ n) × (0 < n) × (n ≤ max_fb_bytes)
IsReply _ r = ⊥

abbrev pub Replies : (Resource → ℕ) → ℕ → Outcome → Type 0
Replies w n o = Spends w n o.0 × IsReply o.1 o.2

abbrev pub Sized : Fb2 → Type 0
Sized f = (0 < f.pitch * f.height) × (f.pitch * f.height ≤ max_fb_bytes)

pub gives_handle :
    (w : Resource → ℕ) (f : Fb2) → Spends w (gem_weight w f.handle) (gem_due f.handle)
gives_handle w f = elim (Bool-cases (f.handle == 0)) [
  | inl bare ↦ rw bare refl
  | inr owns ↦ rw owns (omega arith)
]
