-- ===== src/Listener/Filters.antt =====
-- What a subscriber receives.
use native.Mathlib.Nat.{pow-succ'}
use general_tools.Common.{
  ℕ, zero, suc, ◌+◌, ◌*◌, ◌/◌, ◌%◌, ◌^◌, ◌≤◌, ◌<◌, ◌≡◌, refl, ap, ◌∙◌, Bool, true, false, ◌&&◌,
  List, [], ◌∷◌, map, any, all, none, some, Option, length, take, ltb, ◌==◌, is_empty, Text, Result,
  ok, arith,
}
use general_tools.Address.{starts_with}
use general_tools.Common.Bytes.{to_bytes, of_bytes}
use general_tools.Message.{Message, MessageVector, id_from_smart_message}
use general_tools.Listener.{subscriber_filters}

test-and : (c r x q : ℕ) → c < 256 → r < 256 → (c == r && x == q) ≡ (c + 256 * x == r + 256 * q)
test-and c r x q h h' = ground arith

starts_with-to_bytes :
    (n id : ℕ) (m : Message)
    → id < 256 ^ n
    → n ≤ length m
    → all (λ c. ltb c 256) m ≡ true
    → starts_with (to_bytes n id) m ≡ (of_bytes (take n m) == id)
unfolding starts_with to_bytes of_bytes
starts_with-to_bytes zero id m fits long bytes =
    let none_left : id ≡ 0 = omega (arith, fits) in rw none_left refl
starts_with-to_bytes (suc n) id [] fits long bytes = absurd (omega (arith, long))
starts_with-to_bytes (suc n) id (c ∷ m) fits long bytes =
    let parts : (ltb c 256 ≡ true) × (all (λ c. ltb c 256) m ≡ true) = ground (arith, bytes) in
    let e : 256 ^ suc n ≡ 256 * 256 ^ n = pow-succ' 256 n in
    let ih =
      starts_with-to_bytes n (id / 256) m (omega (arith, e, fits)) (omega (arith, long)) parts.1 in
    let both =
      test-and c (id % 256) (of_bytes (take n m)) (id / 256) (ground (arith, parts))
        (omega arith) in
    ap (◌&&◌ (c == id % 256)) ih
    ∙ both
    ∙ ap (λ i. (c + 256 * of_bytes (take n m)) == i) (omega arith)

abbrev same_id : Option ℕ → ℕ → Bool
same_id none id = false
same_id (some i) id = i == id

ids-fit :
    (id : ℕ) (ids : List ℕ)
    → all (λ i. ltb i (2 ^ 64)) (id ∷ ids) ≡ true
    → (id < 256 ^ 8) × (all (λ i. ltb i (2 ^ 64)) ids ≡ true)
ids-fit id ids e = ground (arith, e)

-- A subscriber that is given ids of message types gets the messages with these ids, and no others:
-- when `stoull` reads each filter as the id of the same place, and zmq passes a message if its first
-- part begins with a prefix that was subscribed to, then a message whose first part holds an id
-- passes exactly if that is one of the ids, and `applyFilters` ends without an error. No filter is
-- empty, the ids have 64 bits, and the first part has at least eight bytes.
pub subscriber_filters_lem :
    (stoull : Text → Result ℕ) (passes : List (List ℕ) → Message → Bool) (filters : List Text)
    (ids : List ℕ) (id_part : Message) (parts : MessageVector)
    → ((prefixes : List (List ℕ)) (m : Message)
        → passes prefixes m ≡ any (λ p. starts_with p m) prefixes)
    → map stoull filters ≡ map ok ids
    → any is_empty filters ≡ false
    → all (λ i. ltb i (2 ^ 64)) ids ≡ true
    → 8 ≤ length id_part
    → all (λ c. ltb c 256) id_part ≡ true
    → ((subscriber_filters stoull filters).1 ≡ none)
      × (passes (subscriber_filters stoull filters).0 id_part
          ≡ any (λ id. same_id (id_from_smart_message (id_part ∷ parts)) id) ids)
unfolding subscriber_filters id_from_smart_message
subscriber_filters_lem stoull passes filters ids id_part parts prefix parsed given fit long bytes =
    let both = go filters ids parsed given fit in
    let enough : ltb (length id_part) 8 ≡ false = ground (arith, long) in
    rw enough (both.0, prefix (subscriber_filters stoull filters).0 id_part ∙ both.1)
  where
    go :
        (filters : List Text) (ids : List ℕ)
        → map stoull filters ≡ map ok ids
        → any is_empty filters ≡ false
        → all (λ i. ltb i (2 ^ 64)) ids ≡ true
        → ((subscriber_filters stoull filters).1 ≡ none)
          × (any (λ p. starts_with p id_part) (subscriber_filters stoull filters).0
              ≡ any (λ id. of_bytes (take 8 id_part) == id) ids)
    go [] [] parsed given fit = (refl, refl)
    go [] (id ∷ ids) parsed given fit = absurd (ground (arith, parsed))
    go (f ∷ fs) [] parsed given fit = absurd (ground (arith, parsed))
    go ([] ∷ fs) (id ∷ ids) parsed given fit = absurd (ground (arith, given))
    go ((c ∷ f) ∷ fs) (id ∷ ids) parsed given fit =
        let split = ids-fit id ids fit in
        let tails : (stoull (c ∷ f) ≡ ok id) × (map stoull fs ≡ map ok ids) =
          ground (arith, parsed) in
        let ih = go fs ids tails.1 given split.1 in
        let here = starts_with-to_bytes 8 id id_part split.0 long bytes in
        ground (arith, tails, ih, here)
