-- ===== src/Common/OrderedMap.antt =====
-- `std::map<std::string, V>` and `std::set<std::string>` as association lists in key order, which is
-- the order in which the program iterates them.
use mathlib.Core.Path.{◌≡◌, refl}
use mathlib.Core.Bool.{Bool, true, false}
use mathlib.Core.List.{List, [], ◌∷◌}
use mathlib.Core.Option.{Option, none, some}
use native.Mathlib.Omega.{arith}
use general_tools.Common.Tests.{if◌then◌else◌, is_some}
use general_tools.Common.Strings.{
  Text, text_eq, text_ltb, text_eq_iff, text_ltb_irrefl, text_ltb_trans, text_ltb_total,
}

abbrev pub OrderedMap {ℓ} : Type ℓ → Type ℓ
OrderedMap V = List (Text × V)

module _ {ℓ} {V : Type ℓ} where
  -- `find`.
  unfoldable pub lookup : Text → OrderedMap V → Option V
  lookup k [] = none
  lookup k ((j, v) ∷ m) = if text_eq j k then some v else lookup k m

  -- `count(k) > 0`.
  abbrev pub contains : Text → OrderedMap V → Bool
  contains k m = is_some (lookup k m)

  -- `m[k] = v`.
  unfoldable pub insert : Text → V → OrderedMap V → OrderedMap V
  insert k v [] = (k, v) ∷ []
  insert k v ((j, w) ∷ m) =
      if text_eq j k
      then (k, v) ∷ m
      else if text_ltb k j
      then (k, v) ∷ (j, w) ∷ m
      else (j, w) ∷ insert k v m

  -- `erase(k)`.
  unfoldable pub erase : Text → OrderedMap V → OrderedMap V
  erase k [] = []
  erase k ((j, w) ∷ m) = if text_eq j k then erase k m else (j, w) ∷ erase k m

  pub lookup-insert :
      (j k : Text) (v : V) (m : OrderedMap V)
      → lookup j (insert k v m) ≡ (if text_eq k j then some v else lookup j m)
  unfolding lookup insert
  lookup-insert j k v [] = refl
  lookup-insert j k v ((i, w) ∷ m) =
      ground (arith, text_eq_iff k j, text_eq_iff i k, text_eq_iff i j, lookup-insert j k v m)

  pub lookup-erase :
      (j k : Text) (m : OrderedMap V)
      → lookup j (erase k m) ≡ (if text_eq k j then none else lookup j m)
  unfolding lookup erase
  lookup-erase j k [] = ground arith
  lookup-erase j k ((i, w) ∷ m) =
      ground (arith, text_eq_iff k j, text_eq_iff i k, text_eq_iff i j, lookup-erase j k m)

  -- Every key of the map is above `k`.
  abbrev pub Above : Text → OrderedMap V → Type 0
  Above k [] = Unit {0}
  Above k ((j, v) ∷ m) = (text_ltb k j ≡ true) × Above k m

  -- The keys rise, so each occurs once.
  abbrev pub IsSorted : OrderedMap V → Type 0
  IsSorted [] = Unit {0}
  IsSorted ((j, v) ∷ m) = Above j m × IsSorted m

  Above-trans : (i j : Text) (m : OrderedMap V) → text_ltb i j ≡ true → Above j m → Above i m
  Above-trans i j [] h a = tt
  Above-trans i j ((k, v) ∷ m) h a = (text_ltb_trans i j k h a.0, Above-trans i j m h a.1)

  Above-insert :
      (i k : Text) (v : V) (m : OrderedMap V)
      → text_ltb i k ≡ true
      → Above i m
      → Above i (insert k v m)
  unfolding insert
  Above-insert i k v [] h a = (h, tt)
  Above-insert i k v ((j, w) ∷ m) h a = ground (arith, Above-insert i k v m h a.1)

  Above-erase : (i k : Text) (m : OrderedMap V) → Above i m → Above i (erase k m)
  unfolding erase
  Above-erase i k [] a = tt
  Above-erase i k ((j, w) ∷ m) a = ground (arith, Above-erase i k m a.1)

  pub insert-IsSorted : (k : Text) (v : V) (m : OrderedMap V) → IsSorted m → IsSorted (insert k v m)
  unfolding insert
  insert-IsSorted k v [] s = (tt, tt)
  insert-IsSorted k v ((j, w) ∷ m) s = ground (
    arith,
    text_eq_iff j k,
    text_ltb_total k j,
    text_eq_iff k j,
    insert-IsSorted k v m s.1,
    Above-insert j k v m,
    Above-trans k j m,
  )

  pub erase-IsSorted : (k : Text) (m : OrderedMap V) → IsSorted m → IsSorted (erase k m)
  unfolding erase
  erase-IsSorted k [] s = tt
  erase-IsSorted k ((j, w) ∷ m) s = ground (arith, erase-IsSorted k m s.1, Above-erase j k m s.0)

  -- A key below all keys is not in the map.
  pub lookup-Above : (k : Text) (m : OrderedMap V) → Above k m → lookup k m ≡ none
  unfolding lookup
  lookup-Above k [] a = refl
  lookup-Above k ((j, w) ∷ m) a =
      ground (arith, text_eq_iff j k, text_ltb_irrefl k, lookup-Above k m a.1)

-- `std::set<std::string>`.
abbrev pub OrderedSet : Type 0
OrderedSet = List Text

unfoldable pub member : Text → OrderedSet → Bool
member k [] = false
member k (j ∷ s) = if text_eq j k then true else member k s

-- `insert(k)`: a key that is there stays.
unfoldable pub add : Text → OrderedSet → OrderedSet
add k [] = k ∷ []
add k (j ∷ s) = if text_eq j k then j ∷ s else if text_ltb k j then k ∷ j ∷ s else j ∷ add k s

unfoldable pub remove : Text → OrderedSet → OrderedSet
remove k [] = []
remove k (j ∷ s) = if text_eq j k then remove k s else j ∷ remove k s

pub member-add :
    (j k : Text) (s : OrderedSet) → member j (add k s) ≡ (if text_eq k j then true else member j s)
unfolding member add
member-add j k [] = refl
member-add j k (i ∷ s) =
    ground (arith, text_eq_iff k j, text_eq_iff i k, text_eq_iff i j, member-add j k s)

pub member-remove :
    (j k : Text) (s : OrderedSet)
    → member j (remove k s) ≡ (if text_eq k j then false else member j s)
unfolding member remove
member-remove j k [] = ground arith
member-remove j k (i ∷ s) =
    ground (arith, text_eq_iff k j, text_eq_iff i k, text_eq_iff i j, member-remove j k s)
