-- ===== src/Common/Tabulate.antt =====
-- Lists written out as a function of the index.
use Prim.Native.Nat.{ℕ, zero, suc, ◌+◌, ◌<◌}
use mathlib.Core.Path.{◌≡◌, refl, ap, ◌∙◌}
use mathlib.Core.List.{List, [], ◌∷◌, ◌++◌, map}
use native.Mathlib.Omega.{arith}
use general_tools.Common.Lists.{length, get_or, take, drop}

module _ {A : Type 0} where
  unfoldable pub tabulate : ℕ → (ℕ → A) → List A
  tabulate zero f = []
  tabulate (suc n) f = f 0 ∷ tabulate n (λ i. f (suc i))

  pub tabulate_congr :
      (n : ℕ) (f g : ℕ → A) → ((i : ℕ) → i < n → f i ≡ g i) → tabulate n f ≡ tabulate n g
  unfolding tabulate
  tabulate_congr zero f g h = refl
  tabulate_congr (suc n) f g h =
      ap (λ x. x ∷ tabulate n (λ i. f (suc i))) (h 0 (omega arith))
      ∙ ap (◌∷◌ (g 0))
          (tabulate_congr n (λ i. f (suc i)) (λ i. g (suc i)) (λ i u. h (suc i) (omega arith)))

  pub length-tabulate : (n : ℕ) (f : ℕ → A) → length (tabulate n f) ≡ n
  unfolding tabulate
  length-tabulate zero f = refl
  length-tabulate (suc n) f = ap suc (length-tabulate n (λ i. f (suc i)))

  pub get_or-tabulate : (n i : ℕ) (f : ℕ → A) (d : A) → i < n → get_or (tabulate n f) i d ≡ f i
  unfolding tabulate
  get_or-tabulate zero i f d h = absurd (omega arith)
  get_or-tabulate (suc n) zero f d h = refl
  get_or-tabulate (suc n) (suc i) f d h = get_or-tabulate n i (λ i. f (suc i)) d (omega arith)

  pub drop-tabulate :
      (m n : ℕ) (f : ℕ → A) → drop m (tabulate (m + n) f) ≡ tabulate n (λ i. f (m + i))
  unfolding tabulate
  drop-tabulate zero n f =
      ap (λ k. tabulate k f) (omega arith)
      ∙ tabulate_congr n f (λ i. f (0 + i)) (λ i u. ap f (omega arith))
  drop-tabulate (suc m) n f =
      let e : suc m + n ≡ suc (m + n) = omega arith in
      ap (λ k. drop (suc m) (tabulate k f)) e
      ∙ drop-tabulate m n (λ i. f (suc i))
      ∙ tabulate_congr n (λ i. f (suc (m + i))) (λ i. f (suc m + i)) (λ i u. ap f (omega arith))

  pub take-tabulate : (m n : ℕ) (f : ℕ → A) → take m (tabulate (m + n) f) ≡ tabulate m f
  unfolding tabulate
  take-tabulate zero n f = refl
  take-tabulate (suc m) n f =
      let e : suc m + n ≡ suc (m + n) = omega arith in
      ap (λ k. take (suc m) (tabulate k f)) e ∙ ap (◌∷◌ (f 0)) (take-tabulate m n (λ i. f (suc i)))

  pub append-tabulate :
      (m n : ℕ) (f : ℕ → A) → tabulate m f ++ tabulate n (λ i. f (m + i)) ≡ tabulate (m + n) f
  unfolding tabulate
  append-tabulate zero n f =
      tabulate_congr n (λ i. f (0 + i)) f (λ i u. ap f (omega arith))
      ∙ ap (λ k. tabulate k f) (omega arith)
  append-tabulate (suc m) n f =
      let e : suc (m + n) ≡ suc m + n = omega arith in
      ap (λ w. f 0 ∷ (tabulate m (λ i. f (suc i)) ++ w))
        (tabulate_congr n (λ i. f (suc m + i)) (λ i. f (suc (m + i))) (λ i u. ap f (omega arith)))
      ∙ ap (◌∷◌ (f 0)) (append-tabulate m n (λ i. f (suc i)))
      ∙ ap (λ k. tabulate k f) e

pub map-tabulate :
    {A B : Type 0} (n : ℕ) (f : A → B) (g : ℕ → A)
    → map f (tabulate n g) ≡ tabulate n (λ i. f (g i))
unfolding tabulate
map-tabulate zero f g = refl
map-tabulate (suc n) f g = ap (◌∷◌ (f (g 0))) (map-tabulate n f (λ i. g (suc i)))
