-- ===== src/Common/Decimal.antt =====
-- `std::to_string` of an unsigned number, and `strtol(s, nullptr, 10)`.
use general_tools.Common.Tests.{Bool-cases, ltb, leb, if◌then◌else◌, ◌==◌}
use general_tools.Common.Strings.{Text}
use Prim.Native.Nat.{ℕ, zero, suc, ◌+◌, ◌-◌, ◌*◌, ◌/◌, ◌%◌, ◌^◌, ◌<◌, min}
use mathlib.Core.Path.{◌≡◌, subst, ◌∙◌}
use mathlib.Core.Logic.{inl, inr}
use mathlib.Core.Bool.{Bool, true, ◌&&◌, ◌||◌}
use mathlib.Core.List.{[], ◌∷◌}
use native.Mathlib.Omega.{arith}

-- The digits of `n` in front of `rest`; the fuel `n + 1` is enough.
unfoldable pub decimal_before : ℕ → ℕ → Text → Text
decimal_before zero n rest = rest
decimal_before (suc fuel) n rest =
    let more = decimal_before fuel (n / 10) ((48 + n % 10) ∷ rest) in
    if ltb n 10 then (48 + n) ∷ rest else more

unfoldable pub to_string : ℕ → Text
unfolding decimal_before
to_string n = decimal_before (n + 1) n []

abbrev pub is_digit : ℕ → Bool
is_digit c = leb 48 c && leb c 57

-- The value of the leading digits, after those that `acc` counts.
unfoldable pub read_digits : ℕ → Text → ℕ
read_digits acc [] = acc
read_digits acc (c ∷ cs) =
    let rest = read_digits (acc * 10 + (c - 48)) cs in if is_digit c then rest else acc

abbrev is_space : ℕ → Bool
is_space c = c == 32 || (leb 9 c && leb c 13)

unfoldable pub skip_space : Text → Text
skip_space [] = []
skip_space (c ∷ cs) = if is_space c then skip_space cs else c ∷ cs

-- The low 16 bits of the `long` that `strtol` returns: the value is cut at the limits of `long`, and
-- a minus sign is taken in two's complement.
unfoldable pub signed_port : Text → ℕ
signed_port [] = 0
signed_port (c ∷ cs) =
    if c == b'-'
    then (2 ^ 16 - min (read_digits 0 cs) (2 ^ 63) % 2 ^ 16) % 2 ^ 16
    else min (read_digits 0 (if c == b'+' then cs else c ∷ cs)) (2 ^ 63 - 1) % 2 ^ 16

unfoldable pub strtol16 : Text → ℕ
unfolding skip_space signed_port read_digits
strtol16 s = signed_port (skip_space s)

read-digit :
    (acc d : ℕ) (rest : Text)
    → d < 10
    → read_digits acc ((48 + d) ∷ rest) ≡ read_digits (acc * 10 + d) rest
unfolding read_digits
read-digit acc d rest h = let value : 48 + d - 48 ≡ d = omega arith in rw value (ground arith)

read-decimal :
    (fuel n : ℕ) (rest : Text)
    → n < fuel
    → read_digits 0 (decimal_before fuel n rest) ≡ read_digits n rest
unfolding decimal_before
read-decimal zero n rest h = absurd (omega arith)
read-decimal (suc fuel) n rest h = elim (Bool-cases (ltb n 10)) [
  | inl small ↦
      let value : 0 * 10 + n ≡ n = omega arith in
      rw small (
        subst (λ v. read_digits 0 ((48 + n) ∷ rest) ≡ read_digits v rest) value
          (read-digit 0 n rest (ground arith)))
  | inr large ↦
      let value : n / 10 * 10 + n % 10 ≡ n = omega arith in
      rw large (
        read-decimal fuel (n / 10) ((48 + n % 10) ∷ rest) (ground arith)
        ∙ subst (λ v. read_digits (n / 10) ((48 + n % 10) ∷ rest) ≡ read_digits v rest) value
            (read-digit (n / 10) (n % 10) rest (omega arith)))
]

decimal-head :
    (fuel n : ℕ) (rest : Text)
    → n < fuel
    → (c : ℕ) × (cs : Text) × (decimal_before fuel n rest ≡ c ∷ cs) × (is_digit c ≡ true)
unfolding decimal_before
decimal-head zero n rest h = absurd (omega arith)
decimal-head (suc fuel) n rest h = elim (Bool-cases (ltb n 10)) [
  | inl small ↦ (48 + n, rest, rw small, ground arith)
  | inr large ↦ rw large (decimal-head fuel (n / 10) ((48 + n % 10) ∷ rest) (ground arith))
]

-- `strtol` reads back the digits of a port.
pub strtol16-to_string : (n : ℕ) → n < 2 ^ 16 → strtol16 (to_string n) ≡ n
unfolding strtol16 to_string read_digits
strtol16-to_string n h =
    let (c, cs, e, digit) = decimal-head (n + 1) n [] (omega arith) in
    let value : read_digits 0 (decimal_before (n + 1) n []) ≡ n =
      read-decimal (n + 1) n [] (omega arith) in
    rw e (ground (arith, rw e at value))
