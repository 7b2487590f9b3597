-- ===== src/Common/Results.antt =====
-- Results of code that may throw: a value, or the message of the `std::runtime_error`.
use mathlib.Core.Bool.{Bool, true, false}
use mathlib.Core.Path.{◌≡◌, refl}
use native.Mathlib.Omega.{arith}
use general_tools.Common.Strings.{Text}

pub data Result {ℓ} (A : Type ℓ) : Type ℓ where
  ok : A → Result A
  throws : Text → Result A

abbrev pub is_ok {ℓ} : {A : Type ℓ} → Result A → Bool
is_ok (ok a) = true
is_ok (throws e) = false

pub ok-result {ℓ} : {A : Type ℓ} (r : Result A) → is_ok r ≡ true → (a : A) × (r ≡ ok a)
ok-result (ok a) e = (a, refl)
ok-result (throws m) e = absurd (ground (arith, e))
