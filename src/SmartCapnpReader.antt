-- ===== src/SmartCapnpReader.antt =====
-- `SmartCapnpReader` (a17/dispatch/smart_capnp_reader.h and smart_capnp_reader.cpp) and
-- `SmartMessageReader` (smart_message_reader.h and smart_message_reader.cpp): a received message, its
-- id and its raw buffers. What capnp reads in a buffer, or the text of the exception that it throws, is
-- the parameter `Capnp`. A part that is not there, and an id part of less than eight bytes, which the
-- source does not check, is `none`.
pub mod Received
mod Tests
use general_tools.Common.{
  ℕ, suc, ◌+◌, ◌-◌, ◌*◌, ◌/◌, Bool, Option, none, some, List, [], ◌∷◌, ◌++◌, codes, Text,
  if◌then◌else◌, ◌==◌, length, take, drop, Result, ok, throws,
}
use general_tools.Common.Decimal.{to_string}
use general_tools.Message.{Message, MessageVector, id_from_smart_message}

pub record SmartCapnpReader : Type 0 where
  pub id : ℕ
  pub buffer : List ℕ

-- `CapnpBufferFromAzmqMessage`: the whole words of the message.
unfoldable pub capnp_buffer : Message → List ℕ
capnp_buffer m = take (length m / 8 * 8) m

-- The capnp library: what `FlatArrayMessageReader` throws for a buffer, and what its `getRoot` reads
-- there or throws.
pub record Capnp {ℓ} (Root : Type ℓ) : Type ℓ where
  pub raises_open : List ℕ → Option Text
  pub read_root : List ℕ → Result Root

module _ {ℓ} {Root : Type ℓ} (capnp : Capnp Root) where
  -- The constructor from a message and an id.
  unfoldable pub of_message : Message → ℕ → Result SmartCapnpReader
  of_message m id = elim (capnp.raises_open (capnp_buffer m)) [
    | none ↦ ok (record { id = id; buffer = capnp_buffer m })
    | some e ↦ throws e
  ]

  -- The constructor from a message vector.
  unfoldable pub of_message_vector : MessageVector → Option (Result SmartCapnpReader)
  unfolding of_message
  of_message_vector [] = none
  of_message_vector (m ∷ []) = none
  of_message_vector (m ∷ n ∷ ms) = elim (id_from_smart_message (m ∷ n ∷ ms)) [
    | none ↦ none
    | some id ↦ some (of_message n id)
  ]

pub record SmartMessageReader : Type 0 where
  pub message_vector : MessageVector
  pub reader : SmartCapnpReader
  pub id : ℕ

unfoldable pub init :
    {Root : Type 0} → Capnp Root → MessageVector → Option (Result SmartMessageReader)
unfolding of_message_vector
init capnp ms = elim (of_message_vector capnp ms) [
  | none ↦ none
  | some (throws e) ↦ some (throws e)
  | some (ok reader) ↦ some (ok (record { message_vector = ms; reader = reader; id = reader.id }))
]

-- `size()`.
abbrev pub size : SmartMessageReader → ℕ
size r = length r.message_vector - 1

abbrev pub part_at : ℕ → MessageVector → Option Message
part_at pos ms = elim (drop pos ms) [ [] ↦ none | m ∷ rest ↦ some m ]

unfoldable pub buffer_at : SmartMessageReader → ℕ → Option Message
buffer_at r pos = part_at (pos + 1) r.message_vector

module _ {ℓ} {Root : Type ℓ} (capnp : Capnp Root) where
  -- `getRoot` of a type with the id `requested_id`.
  unfoldable pub get_root : SmartCapnpReader → ℕ → Result Root
  get_root r requested_id =
      if r.id == requested_id
      then capnp.read_root r.buffer
      else throws (
          codes "Type in getRoot<> ("
          ++ (to_string requested_id
              ++ (codes ") doesn't match id in message (" ++ (to_string r.id ++ codes ")"))))

  -- `getRoot` of `SmartMessageReader`, whose pointer to the reader is always set.
  unfoldable pub message_root : SmartMessageReader → ℕ → Result Root
  unfolding get_root
  message_root r requested_id =
      if r.id == requested_id
      then get_root r.reader requested_id
      else throws (
          codes "Requested message type in SmartMessageReader.getRoot<> ("
          ++ (to_string requested_id
              ++ (codes ") doesn't match received message type ("
                  ++ (to_string r.id ++ codes ")"))))
