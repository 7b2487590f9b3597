-- ===== src/SocketTypes.antt =====
-- a17/dispatch/socket_types.h and socket_types.cpp: the names of the zmq socket types, and which
-- types may connect. -1, for an unknown name, is `none`. `operator[]` has no range check in the
-- source; here it gives the empty string out of range.
mod Tests
use general_tools.Common.{
  subst, Bool-cases, inl, inr, ◌≤◌, ℕ, zero, suc, ◌+◌, ◌<◌, ◌≤◌, ◌≡◌, ◌↔◌, refl, Bool, true, false,
  ◌&&◌, not, Option, none, some, List, [], ◌∷◌, Text, codes, text_eq, if◌then◌else◌, get_or, arith,
  any, all, ◌==◌, ltb, length, is_empty,
}

-- `SocketTypes::types`.
abbrev pub types : List Text
types =
    codes "PAIR"
    ∷ codes "PUB"
    ∷ codes "SUB"
    ∷ codes "REQ"
    ∷ codes "REP"
    ∷ codes "DEALER"
    ∷ codes "ROUTER"
    ∷ codes "PULL"
    ∷ codes "PUSH"
    ∷ codes "XPUB"
    ∷ codes "XSUB"
    ∷ codes "STREAM"
    ∷ []

-- The loop of the constructor that fills `byName`, and the lookup in it; a later entry of the same
-- name would win.
unfoldable pub index_of : Text → List Text → ℕ → Option ℕ → Option ℕ
index_of name [] i found = found
index_of name (t ∷ ts) i found = index_of name ts (i + 1) (if text_eq t name then some i else found)

unfoldable pub from_name : Text → Option ℕ
unfolding index_of
from_name name = index_of name types 0 none

unfoldable pub from_type : ℕ → Text
from_type type = get_or types type []

-- The calls of `connect` in the constructor: for each type the types that it can connect to.
abbrev pub connectable : List (ℕ × List ℕ)
connectable =
    (0, 0 ∷ [])
    ∷ (1, 2 ∷ [])
    ∷ (2, 1 ∷ [])
    ∷ (3, 4 ∷ [])
    ∷ (4, 3 ∷ [])
    ∷ (5, 6 ∷ [])
    ∷ (6, 5 ∷ [])
    ∷ (7, 8 ∷ [])
    ∷ (8, 7 ∷ [])
    ∷ (9, 10 ∷ [])
    ∷ (10, 9 ∷ [])
    ∷ (11, 11 ∷ [])
    ∷ []

unfoldable pub targets : ℕ → List (ℕ × List ℕ) → Option (List ℕ)
targets type [] = none
targets type ((t, to) ∷ rest) = if t == type then some to else targets type rest

-- `none` is the exception of `map::at`.
unfoldable pub can_connect : ℕ → ℕ → Option Bool
unfolding targets
can_connect from to = elim (targets from connectable) [
  | none ↦ none
  | some ts ↦ some (any (λ t. t == to) ts)
]

-- The test holds of the next `count` numbers from `first` on.
each_of : (count first : ℕ) → (ℕ → Bool) → Bool
each_of zero first test = true
each_of (suc count) first test = test first && each_of count (first + 1) test

each_of_lem :
    (count first : ℕ) (test : ℕ → Bool) (type : ℕ)
    → first ≤ type
    → type < first + count
    → each_of count first test ≡ true
    → test type ≡ true
unfolding each_of
each_of_lem zero first test type low high all = absurd (omega arith)
each_of_lem (suc count) first test type low high all = elim (Bool-cases (first == type)) [
  | inl here ↦ let at : first ≡ type = ground arith in subst (λ n. test n ≡ true) at (ground arith)
  | inr later ↦ each_of_lem count (first + 1) test type (ground arith) (omega arith) (ground arith)
]

abbrev finds : ℕ → Bool
finds type = elim (from_name (from_type type)) [ none ↦ false | some i ↦ i == type ]

names_table : each_of 12 0 finds ≡ true
unfolding each_of from_name from_type text_eq
names_table = refl

-- Each of the twelve socket types is found again under its name.
pub from_name-from_type : (type : ℕ) → type < 12 → from_name (from_type type) ≡ some type
from_name-from_type type h =
    let found = each_of_lem 12 0 finds type (omega arith) h names_table in ground (arith, found)

abbrev same_answer : ℕ → ℕ → Bool
same_answer from to = elim (can_connect from to) [
  | none ↦ false
  | some there ↦ elim (can_connect to from) [
    | none ↦ false
    | some back ↦ elim there [ true ↦ back | false ↦ not back ]
  ]
]

abbrev names_ok : ℕ → Bool
names_ok type =
    not (is_empty (from_type type)) && all (λ c. not (c == 32) && not (c == 0)) (from_type type)

words_table : each_of 12 0 names_ok ≡ true
unfolding each_of from_type
words_table = refl

-- The names are words of the discovery protocol: not empty, and without space and NUL.
pub from_type-table :
    (type : ℕ)
    → type < 12
    → (not (is_empty (from_type type)) && all (λ c. not (c == 32) && not (c == 0)) (from_type type))
      ≡ true
from_type-table type h = each_of_lem 12 0 names_ok type (omega arith) h words_table

symmetric_table : each_of 12 0 (λ from. each_of 12 0 (same_answer from)) ≡ true
unfolding each_of can_connect
symmetric_table = refl

-- Whether two socket types connect does not depend on who connects to whom.
pub can_connect_comm :
    (from to : ℕ) → from < 12 → to < 12 → can_connect from to ≡ can_connect to from
can_connect_comm from to h k =
    let row =
      each_of_lem 12 0 (λ f. each_of 12 0 (same_answer f)) from (omega arith) h symmetric_table in
    let same = each_of_lem 12 0 (same_answer from) to (omega arith) k row in ground (arith, same)
