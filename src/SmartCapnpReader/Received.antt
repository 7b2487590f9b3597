-- ===== src/SmartCapnpReader/Received.antt =====
-- A smart message that a builder made, at the reader.
use general_tools.Common.{
  ℕ, ◌+◌, ◌*◌, ◌/◌, ◌^◌, ◌≤◌, ◌<◌, ◌≡◌, ◌≢◌, refl, ap, sym, ◌∙◌, some, List, [], ◌∷◌, ◌++◌, length,
  take, take-append-drop, drop-all, append-nil, arith, ok, is_ok, false, none, ltb,
}
use general_tools.Common.Bytes.{to_bytes, of_bytes-to_bytes, length-to_bytes}
use general_tools.BufferPool.{BufferPool}
use general_tools.Message.{MessageVector, id_from_smart_message}
use general_tools.SmartCapnpBuilder.{SmartCapnpBuilder, build, get_smart_message}
use general_tools.SmartCapnpBuilder.Frame.{
  framed, total_words, build_smart_message-framed, length-framed,
}
use general_tools.SmartCapnpReader.{
  Capnp, SmartCapnpReader, capnp_buffer, of_message, of_message_vector, get_root,
}

take-all : (n : ℕ) (xs : List ℕ) → length xs ≤ n → take n xs ≡ xs
take-all n xs h =
    sym (append-nil (take n xs))
    ∙ ap (◌++◌ (take n xs)) (sym (drop-all n xs h))
    ∙ take-append-drop n xs

pub id_from_smart_message-to_bytes :
    (id : ℕ) (ms : MessageVector)
    → id < 2 ^ 64
    → id_from_smart_message (to_bytes 8 id ∷ ms) ≡ some id
unfolding id_from_smart_message
id_from_smart_message-to_bytes id ms fits =
    let long : ltb (length (to_bytes 8 id)) 8 ≡ false = ground (arith, length-to_bytes 8 id) in
    rw (long, take-all 8 (to_bytes 8 id) (omega (arith, length-to_bytes 8 id)))
      (ap some (of_bytes-to_bytes 8 id (omega arith)))

pub capnp_buffer-framed :
    (segments : List (List ℕ)) → capnp_buffer (framed segments) ≡ framed segments
unfolding capnp_buffer
capnp_buffer-framed segments =
    take-all (length (framed segments) / 8 * 8) (framed segments)
      (omega (arith, length-framed segments))

pub build-framed :
    (serialized_size : List (List ℕ) → ℕ) (segments : List (List ℕ)) (pool : BufferPool)
    (fallback : ℕ) (content : ℕ → List ℕ)
    → serialized_size segments ≡ length segments / 2 + 1 + total_words segments
    → length (content (serialized_size segments * 8)) ≡ serialized_size segments * 8
    → (build serialized_size segments pool fallback content).0 ≡ framed segments
unfolding build
build-framed serialized_size segments pool fallback content size room =
    let message =
      build_smart_message-framed (content (serialized_size segments * 8)) segments
        (room ∙ ap (λ n. n * 8) size) in
    ground (arith, message)

-- A smart message that is sent is the one that is read: where capnp computes the size of its stream
-- framing, the reader of what `getSmartMessage` makes has the id of the builder and, in its buffer,
-- the framing of the segments. `getRoot` for the type with that id gives what capnp reads there, and
-- for every other type it throws. capnp opens that framing and reads it. The memory of the message has that size, and the id has 64 bits.
pub smart_message_received :
    {Root : Type 0} (capnp : Capnp Root) (root : Root) (serialized_size : List (List ℕ) → ℕ)
    (b : SmartCapnpBuilder) (segments : List (List ℕ)) (pool : BufferPool) (fallback : ℕ)
    (content : ℕ → List ℕ) (other : ℕ)
    → serialized_size segments ≡ length segments / 2 + 1 + total_words segments
    → length (content (serialized_size segments * 8)) ≡ serialized_size segments * 8
    → b.id < 2 ^ 64
    → other ≢ b.id
    → capnp.raises_open (framed segments) ≡ none
    → capnp.read_root (framed segments) ≡ ok root
    → let (message, pool') = get_smart_message serialized_size b segments pool fallback content in
      (reader : SmartCapnpReader) × (of_message_vector capnp message ≡ some (ok reader))
      × (reader ≡ record { id = b.id; buffer = framed segments })
      × (get_root capnp reader b.id ≡ ok root)
      × (is_ok (get_root capnp reader other) ≡ false)
unfolding get_smart_message of_message_vector of_message get_root
smart_message_received capnp root serialized_size b segments pool fallback content other size room
      fits ne opens reads =
    (
      record { id = b.id; buffer = framed segments },
      rw (build-framed serialized_size segments pool fallback content size room) (
          ground (
            arith,
            id_from_smart_message-to_bytes b.id (framed segments ∷ []) fits,
            capnp_buffer-framed segments,
            opens,
          )),
      refl,
      ground (arith, reads),
      ground arith,
    )
