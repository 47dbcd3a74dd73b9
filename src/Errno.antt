-- ===== src/Errno.antt =====
-- What the C functions return: 0 or a count on success, a negative errno on failure.
use libdrmtap.Prelude.{◌≡◌, refl, ◌⊎◌, inl, inr, Bool, true, false, if◌then◌else◌}

pub data Errno : Type 0 where
  einval enotsup efbig enomem enospc enodev eacces eio eperm enoent eproto enodata : Errno

pub data Ret {ℓ} (A : Type ℓ) : Type ℓ where
  ok : A → Ret A
  err : Errno → Ret A

-- A failed step ends the function with its errno.
abbrev pub and_then {ℓ κ} : {A : Type ℓ} {B : Type κ} → Ret A → (A → Ret B) → Ret B
and_then (ok a) f = f a
and_then (err e) f = err e

pub Ret-cases {ℓ} : {A : Type ℓ} (r : Ret A) → ((a : A) × (r ≡ ok a)) ⊎ ((e : Errno) × (r ≡ err e))
Ret-cases (ok a) = inl (a, refl)
Ret-cases (err e) = inr (e, refl)

-- Inversion of a chain that succeeded.
pub and_then-eq-ok {ℓ κ} :
    {A : Type ℓ} {B : Type κ} (m : Ret A) (f : A → Ret B) {b : B}
    → and_then m f ≡ ok b
    → (a : A) × (m ≡ ok a) × (f a ≡ ok b)
and_then-eq-ok (ok a) f h = (a, refl, h)
and_then-eq-ok (err e) f h = absurd (cc h)

pub unless-eq-ok {ℓ} :
    {A : Type ℓ} (refused : Bool) (e : Errno) (m : Ret A) {a : A}
    → (if refused then err e else m) ≡ ok a
    → (refused ≡ false) × (m ≡ ok a)
unless-eq-ok true e m h = absurd (cc h)
unless-eq-ok false e m h = (refl, h)
