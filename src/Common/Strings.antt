-- ===== src/Common/Strings.antt =====
-- C and C++ strings as lists of bytes: equality and the lexicographic order of `std::string`, which
-- orders the keys of `std::map` and `std::set`.
use Prim.Native.Nat.{ℕ}
use Prim.Native.Char.{code}
use Prim.Native.String.{String}
use mathlib.Core.Path.{◌≡◌, refl}
use mathlib.Core.Logic.{◌↔◌}
use mathlib.Core.Bool.{Bool, true, false, ◌&&◌}
use mathlib.Core.List.{List, [], ◌∷◌}
use native.Mathlib.Omega.{arith}
use general_tools.Common.Tests.{leb, ltb, ◌==◌, if◌then◌else◌}

abbrev pub Text : Type 0
Text = List ℕ

-- The bytes of an ASCII literal.
abbrev pub codes : String → Text
codes String.[] = []
codes (String.◌∷◌ c s) = code c ∷ codes s

unfoldable pub text_eq : Text → Text → Bool
text_eq [] [] = true
text_eq [] (y ∷ ys) = false
text_eq (x ∷ xs) [] = false
text_eq (x ∷ xs) (y ∷ ys) = x == y && text_eq xs ys

-- `isprint` of the C library.
abbrev pub is_print : ℕ → Bool
is_print c = leb 32 c && leb c 126

-- `a < b` on `std::string`.
unfoldable pub text_ltb : Text → Text → Bool
text_ltb xs [] = false
text_ltb [] (y ∷ ys) = true
text_ltb (x ∷ xs) (y ∷ ys) = if ltb x y then true else x == y && text_ltb xs ys

pub text_eq_iff : (a b : Text) → (text_eq a b ≡ true) ↔ (a ≡ b)
unfolding text_eq
text_eq_iff [] [] = (λ _. refl, λ _. refl)
text_eq_iff [] (y ∷ ys) = (λ e. cc, λ e. cc)
text_eq_iff (x ∷ xs) [] = (λ e. cc, λ e. cc)
text_eq_iff (x ∷ xs) (y ∷ ys) = let ih = text_eq_iff xs ys in ground (arith, ih)

pub text_eq_refl : (a : Text) → text_eq a a ≡ true
text_eq_refl a = (text_eq_iff a a).1 refl

pub text_ltb_irrefl : (a : Text) → text_ltb a a ≡ false
unfolding text_ltb
text_ltb_irrefl [] = refl
text_ltb_irrefl (x ∷ xs) = ground (arith, text_ltb_irrefl xs)

pub text_ltb_trans :
    (a b c : Text) → text_ltb a b ≡ true → text_ltb b c ≡ true → text_ltb a c ≡ true
unfolding text_ltb
text_ltb_trans a b [] p q = cc
text_ltb_trans a [] (z ∷ zs) p q = cc
text_ltb_trans [] (y ∷ ys) (z ∷ zs) p q = refl
text_ltb_trans (x ∷ xs) (y ∷ ys) (z ∷ zs) p q = ground (arith, text_ltb_trans xs ys zs)

-- Of two different strings one is less.
pub text_ltb_total : (a b : Text) → text_eq a b ≡ false → text_ltb a b ≡ false → text_ltb b a ≡ true
unfolding text_ltb text_eq
text_ltb_total [] [] p q = cc
text_ltb_total [] (y ∷ ys) p q = cc
text_ltb_total (x ∷ xs) [] p q = refl
text_ltb_total (x ∷ xs) (y ∷ ys) p q = ground (arith, text_ltb_total xs ys)
