-- ===== src/Wire/Types.antt =====
-- About `parseTypes` and `writeTypes` together.
use general_tools.Common.{
  ◌≡◌, ◌≢◌, refl, ap, sym, ◌∙◌, Bool, true, false, ◌&&◌, not, [], ◌∷◌, ◌++◌, Text, text_eq,
  text_ltb, text_eq_iff, text_ltb_irrefl, text_ltb_trans, ◌==◌, arith, all, append_assoc,
  append-nil, All, is_empty,
}
use general_tools.Common.OrderedMap.{OrderedSet, add}
use general_tools.Wire.Tokens.{is_token}
use general_tools.Wire.{
  sep, no_types, space, write_ids, write_all, write_types, split_on_sep, parse_types,
}

-- The strings rise, as in a `std::set`.
abbrev pub SortedSet : OrderedSet → Type 0
SortedSet [] = Unit {0}
SortedSet (t ∷ ts) = All (λ u. text_ltb t u ≡ true) ts × SortedSet ts

-- A type name that the protocol can carry: not empty, and without separator, space and NUL.
abbrev pub is_type_name : Text → Bool
is_type_name t =
    not (is_empty t) && all (λ c. not (c == sep) && (not (c == space) && not (c == 0))) t

add-last :
    (k : Text) (acc : OrderedSet) → All (λ i. text_ltb i k ≡ true) acc → add k acc ≡ acc ++ k ∷ []
unfolding add
add-last k [] below = refl
add-last k (i ∷ acc) below =
    ground (arith, text_eq_iff i k, text_ltb_irrefl i, text_ltb_trans i k i, add-last k acc below.1)

add_all : OrderedSet → OrderedSet → OrderedSet
add_all acc [] = acc
add_all acc (t ∷ ts) = add_all (add t acc) ts

below-last :
    (acc : OrderedSet) (k : Text) (ts : OrderedSet)
    → SortedSet (acc ++ k ∷ ts)
    → All (λ i. text_ltb i k ≡ true) acc
below-last [] k ts s = tt
below-last (i ∷ acc) k ts s = (head acc s.0, below-last acc k ts s.1)
  where
    head : (acc : OrderedSet) → All (λ u. text_ltb i u ≡ true) (acc ++ k ∷ ts) → text_ltb i k ≡ true
    head [] a = a.0
    head (j ∷ acc) a = head acc a.1

add_all-append : (acc ts : OrderedSet) → SortedSet (acc ++ ts) → add_all acc ts ≡ acc ++ ts
unfolding add_all
add_all-append acc [] s = sym (append-nil acc)
add_all-append acc (t ∷ ts) s =
    rw (add-last t acc (below-last acc t ts s))
      (add_all-append (acc ++ t ∷ []) ts (rw append_assoc s) ∙ append_assoc acc (t ∷ []) ts)

write_ids-name : (t : Text) (flag : Bool) → is_type_name t ≡ true → write_ids t flag ≡ true
unfolding write_ids
write_ids-name [] flag e = cc
write_ids-name (c ∷ []) flag e = ground arith
write_ids-name (c ∷ d ∷ t) flag e = write_ids-name (d ∷ t) (not (c == 0)) (ground arith)

split-text :
    (raw t rest : Text) (types : OrderedSet)
    → all (λ c. not (c == sep) && (not (c == space) && not (c == 0))) t ≡ true
    → split_on_sep raw (t ++ rest) types ≡ split_on_sep (raw ++ t) rest types
unfolding split_on_sep
split-text raw [] rest types e = rw append-nil
split-text raw (c ∷ t) rest types e =
    let later = rw append_assoc at (split-text (raw ++ c ∷ []) t rest types (ground arith)) in
    ground (arith, later)

split-write_all :
    (raw : Text) (ts acc : OrderedSet)
    → all is_type_name ts ≡ true
    → split_on_sep raw (write_all true ts) acc ≡ add_all (add raw acc) ts
unfolding split_on_sep write_all add_all
split-write_all raw [] acc e = refl
split-write_all raw (t ∷ ts) acc e = ground (
  arith,
  write_ids-name t true,
  split-text [] t (write_all true ts) (add raw acc),
  split-write_all t ts (add raw acc),
)

dot-only :
    (t : Text) (ts : OrderedSet)
    → is_type_name t ≡ true
    → t ++ write_all true ts ≡ no_types
    → ◌≡◌ {A = OrderedSet} (t ∷ ts) (no_types ∷ [])
unfolding write_all
dot-only [] ts e w = cc
dot-only (c ∷ []) [] e w = ap (λ u. u ∷ []) w
dot-only (c ∷ []) (u ∷ ts) e w = cc
dot-only (c ∷ d ∷ t) ts e w = cc

-- A set of type names that the protocol can carry is read back as it was written, other than the
-- set whose only name is ".". (The empty set is written as "." itself.)
pub parse_types-write_types :
    (ts : OrderedSet)
    → SortedSet ts
    → all is_type_name ts ≡ true
    → ◌≢◌ {A = OrderedSet} ts (no_types ∷ [])
    → parse_types (write_types ts) ≡ ts
unfolding parse_types write_types write_all split_on_sep text_eq add
parse_types-write_types [] s e dot = refl
parse_types-write_types ([] ∷ ts) s e dot = cc
parse_types-write_types ((c ∷ t) ∷ ts) s e dot = ground (
  arith,
  text_eq_iff (c ∷ (t ++ write_all true ts)) no_types,
  write_ids-name (c ∷ t) false,
  λ (w : (c ∷ t) ++ write_all true ts ≡ no_types). dot (dot-only (c ∷ t) ts (ground arith) w),
  split-text [] (c ∷ t) (write_all true ts) [],
  split-write_all (c ∷ t) ts [],
  add_all-append ((c ∷ t) ∷ []) ts s,
)

is_token-append : (a b : Text) → is_token a ≡ true → is_token b ≡ true → is_token (a ++ b) ≡ true
is_token-append [] b p q = q
is_token-append (c ∷ a) b p q = ground (arith, is_token-append a b)

type-token : (t : Text) → is_type_name t ≡ true → is_token t ≡ true
type-token [] e = refl
type-token (c ∷ []) e = ground arith
type-token (c ∷ d ∷ t) e = ground (arith, type-token (d ∷ t))

write_all-token :
    (flag : Bool) (ts : OrderedSet)
    → all is_type_name ts ≡ true
    → is_token (write_all flag ts) ≡ true
unfolding write_all
write_all-token flag [] e = refl
write_all-token flag (t ∷ ts) e = ground (
  arith,
  type-token t,
  write_all-token (write_ids t flag) ts,
  is_token-append t (write_all (write_ids t flag) ts),
)

-- What `writeTypes` writes for type names is one token of the protocol.
pub write_types-token :
    (ts : OrderedSet)
    → all is_type_name ts ≡ true
    → (is_token (write_types ts) ≡ true) × (is_empty (write_types ts) ≡ false)
unfolding write_types write_all
write_types-token [] e = (refl, refl)
write_types-token ([] ∷ ts) e = cc
write_types-token ((c ∷ t) ∷ ts) e =
    (unfold write_types in write_all-token false ((c ∷ t) ∷ ts) e, refl)
