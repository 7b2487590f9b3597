-- ===== src/Node/Typed.antt =====
-- Typed messages from one node to another.
use general_tools.Common.{
  ℕ, ◌+◌, ◌*◌, ◌/◌, ◌^◌, ◌<◌, ◌≡◌, ◌≢◌, refl, ap, ◌∙◌, Bool, false, Option, none, some, List, [],
  ◌∷◌, Text, length, ok, arith,
}
use general_tools.Common.Bytes.{to_bytes}
use general_tools.BufferPool.{BufferPool}
use general_tools.Message.{Message, MessageVector}
use general_tools.Socket.{Socket, receives, handles, send}
use general_tools.Socket.Multipart.{nonempty, send_from-parts_of}
use general_tools.Listener.{serve}
use general_tools.Listener
use general_tools.Listener.Delivery.{stream, serve-init}
use general_tools.SmartCapnpBuilder.{SmartCapnpBuilder, get_smart_message}
use general_tools.SmartCapnpBuilder.Frame.{framed, total_words}
use general_tools.SmartCapnpReader.{Capnp, of_message, of_message_vector, get_root}
use general_tools.SmartCapnpReader.Received.{
  build-framed, id_from_smart_message-to_bytes, capnp_buffer-framed,
}
use general_tools.Node.{handles_root, subscriber_handler}

smart_message-framed :
    (serialized_size : List (List ℕ) → ℕ) (b : SmartCapnpBuilder) (segments : List (List ℕ))
    (pool : BufferPool) (fallback : ℕ) (content : ℕ → List ℕ)
    → serialized_size segments ≡ length segments / 2 + 1 + total_words segments
    → length (content (serialized_size segments * 8)) ≡ serialized_size segments * 8
    → (get_smart_message serialized_size b segments pool fallback content).0
      ≡ to_bytes 8 b.id ∷ framed segments ∷ []
unfolding get_smart_message
smart_message-framed serialized_size b segments pool fallback content size room =
    ap (λ m. to_bytes 8 b.id ∷ m ∷ [])
      (build-framed serialized_size segments pool fallback content size room)

delivered-parts :
    (azmq_send : ℕ → Message → Bool → ℕ × ℕ) (m n : Message)
    → ((i : ℕ) (m : Message) (more : Bool) → (azmq_send i m more).1 ≡ 0)
    → (send azmq_send (m ∷ n ∷ []) 0).parts ≡ stream ((m, n ∷ []) ∷ [])
unfolding send
delivered-parts azmq_send m n all = (send_from-parts_of azmq_send all 0 (m ∷ n ∷ []) 0).0

subscriber_handler-framed :
    {Root : Type 0} (capnp : Capnp Root) (root : Root) (segments : List (List ℕ)) (id : ℕ)
    (raises : Root → Option Text)
    → id < 2 ^ 64
    → capnp.raises_open (framed segments) ≡ none
    → capnp.read_root (framed segments) ≡ ok root
    → raises root ≡ none
    → subscriber_handler capnp id raises (to_bytes 8 id ∷ framed segments ∷ [])
      ≡ some (handles_root root ∷ [])
unfolding subscriber_handler of_message_vector of_message get_root
subscriber_handler-framed capnp root segments id raises fits opens reads calm = ground (
  arith,
  id_from_smart_message-to_bytes id (framed segments ∷ []) fits,
  capnp_buffer-framed segments,
  opens,
  reads,
  calm,
)

nonempty-framed :
    (id : ℕ) (segments : List (List ℕ))
    → nonempty (to_bytes 8 id ∷ framed segments ∷ []) ≡ to_bytes 8 id ∷ framed segments ∷ []
unfolding to_bytes
nonempty-framed id segments = refl

-- A typed message that a publisher sends reaches the typed handler of a subscriber: when zmq takes
-- every part, and the subscriber asks for the type that the builder has the id of, then the smart
-- message of the builder, sent in parts and put together at a new listener, leads to one call of the
-- listener's handler, with that same message, and the listener is then ready for the next one; and the
-- handler that `registerCapnpSubscriber` made passes to the application's handler the root that
-- capnp reads in the framing of the segments, and no error. Conditions: capnp opens that framing and reads
-- the root without an exception; it computes the size of its stream framing, and the memory of the message has that size; the id has 64 bits; the listener's handler is
-- set and does not throw, nor does the application's for this message; and the socket of the listener
-- has no part of an earlier message.
pub typed_message_delivered :
    {Root : Type 0} (capnp : Capnp Root) (root : Root) (serialized_size : List (List ℕ) → ℕ)
    (b : SmartCapnpBuilder) (segments : List (List ℕ)) (pool : BufferPool) (fallback : ℕ)
    (content : ℕ → List ℕ) (raises : Root → Option Text) (azmq_send : ℕ → Message → Bool → ℕ × ℕ)
    (handler_throws : ℕ → MessageVector → Bool) (socket : Socket) (handler error : ℕ)
    → serialized_size segments ≡ length segments / 2 + 1 + total_words segments
    → length (content (serialized_size segments * 8)) ≡ serialized_size segments * 8
    → b.id < 2 ^ 64
    → capnp.raises_open (framed segments) ≡ none
    → capnp.read_root (framed segments) ≡ ok root
    → raises root ≡ none
    → ((i : ℕ) (m : Message) (more : Bool) → (azmq_send i m more).1 ≡ 0)
    → handler ≢ 0
    → ((message : MessageVector) → handler_throws handler message ≡ false)
    → socket.received_message ≡ []
    → let message = (get_smart_message serialized_size b segments pool fallback content).0 in
      let (l, socket', actions) = Listener.init socket handler error in
      (serve handler_throws l socket' (send azmq_send message 0).parts
        ≡ ok (socket', receives ∷ handles handler message ∷ receives ∷ []))
      × (subscriber_handler capnp b.id raises message ≡ some (handles_root root ∷ []))
typed_message_delivered capnp root serialized_size b segments pool fallback content raises azmq_send
      handler_throws socket handler error size room fits opens reads quiet all set calm fresh =
    let whole = smart_message-framed serialized_size b segments pool fallback content size room in
    let parts = delivered-parts azmq_send (to_bytes 8 b.id) (framed segments) all in
    let delivered =
      serve-init handler_throws socket handler error ((to_bytes 8 b.id, framed segments ∷ []) ∷ [])
        set calm fresh in
    rw (whole, parts)
      (
        delivered.1
            ∙ ap
                (λ m. ok (
                  (Listener.init socket handler error).1,
                  receives ∷ handles handler m ∷ receives ∷ [],
                ))
                (nonempty-framed b.id segments),
        subscriber_handler-framed capnp root segments b.id raises fits opens reads quiet,
      )
