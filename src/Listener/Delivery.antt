-- ===== src/Listener/Delivery.antt =====
-- A stream of messages at a listener.
use general_tools.Common.{
  ℕ, ◌≡◌, ◌≢◌, refl, Bool, true, false, List, [], ◌∷◌, ◌++◌, append_assoc, ok, arith,
}
use general_tools.Message.{Message, MessageVector}
use general_tools.Socket.{Socket, Part, Action, receives, handles, on_receive, receive}
use general_tools.Socket.Multipart.{
  nonempty, parts_of, receptions, on_receive-more, received-eq, nonempty-cons,
}
use general_tools.Listener.{Listener, listener_handler, init, on_message, relay, on_part, serve}

-- A message has at least one part; here it is the first part and the others.
abbrev pub Messages : Type 0
Messages = List (Message × MessageVector)

abbrev pub stream : Messages → List Part
stream [] = []
stream ((m, ms) ∷ later) = parts_of (m ∷ ms) ++ stream later

-- For each message, a reception of each further part, one call of the handler, and the reception of
-- the next message.
abbrev pub deliveries : ℕ → Messages → List Action
deliveries h [] = []
deliveries h ((m, ms) ∷ later) =
    receptions (m ∷ ms) (handles h (nonempty (m ∷ ms)) ∷ receives ∷ []) ++ deliveries h later

module _ (handler_throws : ℕ → MessageVector → Bool) (l : Listener)
    (calm : (message : MessageVector) → handler_throws l.wrapped_handler message ≡ false)
    (set : l.wrapped_handler ≢ 0) where
  -- The socket while it waits for a message, with the parts received so far.
  waiting : MessageVector → Socket
  waiting received = record {
    received_message = received;
    smart_message_handler = listener_handler;
    error_handler = l.error_handler;
  }

  on_part-more :
      (received : MessageVector) (m : Message)
      → on_part handler_throws l (waiting received) (record { bytes = m; more = true })
        ≡ ok (waiting (received ++ nonempty (m ∷ [])), receives ∷ [])
  unfolding waiting on_part relay
  on_part-more received m = ground (arith, on_receive-more (waiting received) m)

  on_part-last :
      (received : MessageVector) (m : Message)
      → on_part handler_throws l (waiting received) (record { bytes = m; more = false })
        ≡ ok (waiting [], handles l.wrapped_handler (received ++ nonempty (m ∷ [])) ∷ receives ∷ [])
  unfolding waiting on_part relay on_receive on_message receive
  on_part-last received m =
      ground (arith, received-eq received m, calm (received ++ nonempty (m ∷ [])), set)

  serve-message :
      (received : MessageVector) (m : Message) (ms : MessageVector) (later : List Part)
      (socket : Socket) (actions : List Action)
      → serve handler_throws l (waiting []) later ≡ ok (socket, actions)
      → serve handler_throws l (waiting received) (parts_of (m ∷ ms) ++ later)
        ≡ ok (
          socket,
          receptions
                (m ∷ ms)
                (handles l.wrapped_handler (received ++ nonempty (m ∷ ms)) ∷ receives ∷ [])
              ++ actions,
        )
  unfolding serve
  serve-message received m [] later socket actions rest =
      ground (arith, on_part-last received m, rest)
  serve-message received m (n ∷ ms) later socket actions rest =
      let ih = serve-message (received ++ nonempty (m ∷ [])) n ms later socket actions rest in
      ground (
        arith,
        on_part-more received m,
        ih,
        append_assoc received (nonempty (m ∷ [])) (nonempty (n ∷ ms)),
        nonempty-cons m (n ∷ ms),
      )

  serve-stream :
      (messages : Messages)
      → serve handler_throws l (waiting []) (stream messages)
        ≡ ok (waiting [], deliveries l.wrapped_handler messages)
  serve-stream [] = unfold serve in refl
  serve-stream ((m, ms) ∷ later) =
      serve-message [] m ms (stream later) (waiting []) (deliveries l.wrapped_handler later)
        (serve-stream later)

-- A new listener hands every message to its handler, once and in order, and is then ready for the
-- next one: when the handler is set and does not throw, the parts of a stream of messages lead, after
-- the constructor's own, to exactly one call for each message, with its parts other than empty ones,
-- and one `async_receive` after each part that arrives.
pub serve-init :
    (handler_throws : ℕ → MessageVector → Bool) (socket : Socket) (handler error : ℕ)
    (messages : Messages)
    → handler ≢ 0
    → ((message : MessageVector) → handler_throws handler message ≡ false)
    → socket.received_message ≡ []
    → let (l, socket', actions) = init socket handler error in
      (actions ≡ receives ∷ [])
      × (serve handler_throws l socket' (stream messages)
          ≡ ok (socket', deliveries handler messages))
unfolding init receive waiting
serve-init handler_throws socket handler error messages set calm fresh = rw fresh (
  refl,
  serve-stream handler_throws (record { wrapped_handler = handler; error_handler = error }) calm set
      messages,
)
