-- ===== src/Node/Replies.antt =====
-- Typed requests at a reply server.
use general_tools.Common.{
  ℕ, ◌≡◌, ◌≢◌, ◌⊎◌, inl, inr, refl, Bool, true, false, not, Option, none, some, is_some, List, [],
  ◌∷◌, map, all, Text, leb, length, take, Result, ok, throws, arith,
}
use general_tools.Common.Bytes.{of_bytes}
use general_tools.Message.{MessageVector, id_from_smart_message}
use general_tools.Socket.{Socket}
use general_tools.SmartCapnpReader.{Capnp, of_message, of_message_vector, get_root}
use general_tools.ReplyServer.{receives, init, serve}
use general_tools.ReplyServer.Replies.{replies_once, reply_of, exchange, serve-exchange}
use general_tools.Node.{reply_handler}

-- What node.h asks of the handler of the application: it replies once, or throws before it replied.
abbrev pub answers_once : List MessageVector × Option Text → Bool
answers_once ([], raised) = is_some raised
answers_once (reply ∷ [], raised) = not (is_some raised)
answers_once (reply ∷ r ∷ replies, raised) = false

-- At least two parts, the first with the eight bytes of an id.
abbrev pub is_request : MessageVector → Bool
is_request [] = false
is_request (m ∷ []) = false
is_request (m ∷ n ∷ ms) = leb 8 (length m)

Result-cases {ℓ} :
    {A : Type ℓ} (r : Result A) → ((a : A) × (r ≡ ok a)) ⊎ ((e : Text) × (r ≡ throws e))
Result-cases (ok a) = inl (a, refl)
Result-cases (throws e) = inr (e, refl)

module _ {Root : Type 0} (capnp : Capnp Root) (type_id : ℕ)
    (answer : Root → List MessageVector × Option Text)
    (answer_error : Text → List MessageVector × Bool)
    (answers : (root : Root) → answers_once (answer root) ≡ true)
    (answers_error : (e : Text)
      → (reply : MessageVector) × (answer_error e ≡ (reply ∷ [], false))) where
  answer-cases :
      (a : List MessageVector × Option Text)
      → answers_once a ≡ true
      → ((reply : MessageVector) × (a ≡ (reply ∷ [], none))) ⊎ ((e : Text) × (a ≡ ([], some e)))
  answer-cases ([], some e) h = inr (e, refl)
  answer-cases ([], none) h = absurd (ground (arith, h))
  answer-cases (reply ∷ [], none) h = inl (reply, refl)
  answer-cases (reply ∷ [], some e) h = absurd (ground (arith, h))
  answer-cases (reply ∷ r ∷ replies, raised) h = absurd (ground (arith, h))

  reply_handler-once :
      (message : MessageVector)
      → is_request message ≡ true
      → (reply : MessageVector) × (reply_handler capnp type_id answer answer_error message
          ≡ some (reply ∷ [], false))
  unfolding reply_handler of_message_vector
  reply_handler-once [] parts = absurd (ground (arith, parts))
  reply_handler-once (m ∷ []) parts = absurd (ground (arith, parts))
  reply_handler-once (m ∷ n ∷ ms) parts =
      let id = of_bytes (take 8 m) in
      let there : id_from_smart_message (m ∷ n ∷ ms) ≡ some id =
        unfold id_from_smart_message in ground (arith, parts) in
      elim (Result-cases (of_message capnp n id)) [
        | inr (e, broken) ↦
            let (reply, told) = answers_error e in (reply, ground (arith, there, broken, told))
        | inl (reader, opened) ↦ elim (Result-cases (get_root capnp reader type_id)) [
          | inr (e, wrong) ↦
              let (reply, told) = answers_error e in
              (reply, ground (arith, there, opened, wrong, told))
          | inl (root, right) ↦ elim (answer-cases (answer root) (answers root)) [
            | inl (reply, replied) ↦ (reply, ground (arith, there, opened, right, replied))
            | inr (e, raised) ↦
                let (reply, told) = answers_error e in
                (reply, ground (arith, there, opened, right, raised, told))
          ]
        ]
      ]

  requests-once :
      (react : ℕ → MessageVector → List MessageVector × Bool) (handler : ℕ)
      (requests : List MessageVector)
      → ((m : MessageVector)
          → is_request m ≡ true
          → reply_handler capnp type_id answer answer_error m ≡ some (react handler m))
      → all is_request requests ≡ true
      → all (λ m. replies_once (react handler m)) requests ≡ true
  requests-once react handler [] reacts parts = refl
  requests-once react handler (m ∷ requests) reacts parts =
      let long : is_request m ≡ true = ground (arith, parts) in
      let others : all is_request requests ≡ true = ground (arith, parts) in
      let ih = requests-once react handler requests reacts others in
      let (reply, once) = reply_handler-once m long in ground (arith, reacts m long, once, ih)

-- A typed reply server answers each request once, if the application keeps to what node.h asks: when
-- its handler replies once, or throws before it replied, and its handler of errors always replies once
-- and returns, then a server whose handler is the one that `registerCapnpReplyServerAsync` makes sends
-- one reply for each request of at least two parts, the first of at least eight bytes, whether the
-- request has the right type or not and whether capnp throws for it or not, and asks for one more
-- request after each. The server's handler is set.
pub typed_requests_answered :
    {Root : Type 0} (capnp : Capnp Root) (type_id : ℕ)
    (answer : Root → List MessageVector × Option Text)
    (answer_error : Text → List MessageVector × Bool)
    (react : ℕ → MessageVector → List MessageVector × Bool) (socket : Socket) (handler error : ℕ)
    (requests : List MessageVector)
    → ((root : Root) → answers_once (answer root) ≡ true)
    → ((e : Text) → (reply : MessageVector) × (answer_error e ≡ (reply ∷ [], false)))
    → ((m : MessageVector)
        → is_request m ≡ true
        → reply_handler capnp type_id answer answer_error m ≡ some (react handler m))
    → handler ≢ 0
    → all is_request requests ≡ true
    → let (s, actions) = init socket handler error in
      (actions ≡ receives ∷ [])
      × (serve react s requests ≡ (s, exchange (map (λ m. reply_of (react handler m)) requests)))
typed_requests_answered capnp type_id answer answer_error react socket handler error requests
      answers answers_error reacts set parts =
    serve-exchange react socket handler error requests set (
      requests-once capnp type_id answer answer_error answers answers_error react handler requests
        reacts parts)
