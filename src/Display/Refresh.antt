-- ===== src/Display/Refresh.antt =====
-- refresh_gcd and drmtap_mode_refresh.
use libdrmtap.Prelude.{
  ℕ, zero, suc, ◌+◌, ◌*◌, ◌/◌, ◌%◌, ◌≡◌, Bool, ◌||◌, ◌==◌, ltb, if◌then◌else◌, Option, none, some,
}
use libdrmtap.Errno.{Ret, ok, err, einval}

-- while (b != 0) { t = a % b; a = b; b = t; }, with fuel; `none` means that it ran out.
unfoldable pub refresh_gcd : ℕ → ℕ → ℕ → Option ℕ
refresh_gcd zero a b = none
refresh_gcd (suc fuel) a b =
    let rest = refresh_gcd fuel b (a % b) in if b == 0 then some a else rest

-- drmModeModeInfo, as far as it is read.
pub record Mode : Type 0 where
  pub clock : ℕ
  pub htotal : ℕ
  pub vtotal : ℕ
  pub interlace : Bool
  pub dblscan : Bool
  pub vscan : ℕ

abbrev pub rate_num : Mode → ℕ
rate_num m = if m.interlace then m.clock * 1000 * 2 else m.clock * 1000

abbrev pub with_vscan : ℕ → ℕ → ℕ
with_vscan vscan d = if ltb 1 vscan then d * vscan else d

abbrev pub rate_den : Mode → ℕ
rate_den m = with_vscan m.vscan (if m.dblscan then m.htotal * m.vtotal * 2 else m.htotal * m.vtotal)

abbrev pub over : Option ℕ → ℕ → ℕ → Option (ℕ × ℕ)
over none n d = none
over (some g) n d = some (n / g, d / g)

-- The fields are 32- and 16-bit, so no product leaves 64 bits. The fuel is the denominator and one.
unfoldable pub mode_refresh : Mode → Ret (Option (ℕ × ℕ))
mode_refresh m =
    if (m.clock == 0) || ((m.htotal == 0) || (m.vtotal == 0))
    then err einval
    else ok
        (over (refresh_gcd (rate_den m + 1) (rate_num m) (rate_den m)) (rate_num m) (rate_den m))

-- `g` divides `n`, and the divisors that two numbers share.
abbrev pub Divides : ℕ → ℕ → Type 0
Divides g n = (q : ℕ) × (n ≡ q * g)

abbrev pub IsGcd : ℕ → ℕ → ℕ → Type 0
IsGcd g a b = Divides g a × Divides g b × ((c : ℕ) → Divides c a → Divides c b → Divides c g)
