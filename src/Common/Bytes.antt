-- ===== src/Common/Bytes.antt =====
-- Numbers as bytes in memory, the lowest first, as on the little-endian hosts that the program is
-- built for, and `memcpy` into a buffer.
use Prim.Native.Nat.{ℕ, zero, suc, ◌+◌, ◌*◌, ◌/◌, ◌%◌, ◌^◌, ◌<◌}
use mathlib.Core.Path.{◌≡◌, refl, ap, subst}
use mathlib.Core.List.{List, [], ◌∷◌, ◌++◌, append_assoc}
use native.Mathlib.Omega.{arith}
use native.Mathlib.Nat.{pow-succ'}
use general_tools.Common.Lists.{length, take, drop, length-append}

-- The bytes of an unsigned number of the given width.
unfoldable pub to_bytes : ℕ → ℕ → List ℕ
to_bytes zero n = []
to_bytes (suc width) n = (n % 256) ∷ to_bytes width (n / 256)

unfoldable pub of_bytes : List ℕ → ℕ
of_bytes [] = 0
of_bytes (b ∷ bs) = b + 256 * of_bytes bs

-- `memcpy(&buf[at], bytes, size)`.
abbrev pub write : List ℕ → ℕ → List ℕ → List ℕ
write buf at bytes = take at buf ++ (bytes ++ drop (at + length bytes) buf)

pub length-to_bytes : (width n : ℕ) → length (to_bytes width n) ≡ width
unfolding to_bytes
length-to_bytes zero n = refl
length-to_bytes (suc width) n = ap suc (length-to_bytes width (n / 256))

pub of_bytes-to_bytes : (width n : ℕ) → n < 256 ^ width → of_bytes (to_bytes width n) ≡ n
unfolding to_bytes of_bytes
of_bytes-to_bytes zero n h = omega arith
of_bytes-to_bytes (suc width) n h =
    let below : n / 256 < 256 ^ width =
      let e : 256 ^ suc width ≡ 256 * 256 ^ width = pow-succ' 256 width in omega (arith, e, h) in
    omega (arith, of_bytes-to_bytes width (n / 256) below)

module _ {ℓ} {A : Type ℓ} where
  pub take-append : (pre rest : List A) → take (length pre) (pre ++ rest) ≡ pre
  take-append [] rest = refl
  take-append (x ∷ pre) rest = ap (◌∷◌ x) (take-append pre rest)

  pub drop-append : (pre rest : List A) → drop (length pre) (pre ++ rest) ≡ rest
  drop-append [] rest = refl
  drop-append (x ∷ pre) rest = drop-append pre rest

-- A write over a part of the same length.
pub write_lem :
    (pre old bytes post : List ℕ) (at : ℕ)
    → at ≡ length pre
    → length old ≡ length bytes
    → write (pre ++ (old ++ post)) at bytes ≡ pre ++ (bytes ++ post)
write_lem pre old bytes post at e same =
    rw (e, take-append pre (old ++ post), ← same)
      (ap (λ rest. pre ++ (bytes ++ rest))
        (subst (λ n. drop n (pre ++ (old ++ post)) ≡ post) (length-append pre old)
          (subst (λ l. drop (length (pre ++ old)) l ≡ post) (append_assoc pre old post)
            (drop-append (pre ++ old) post))))
