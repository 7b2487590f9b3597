-- ===== src/Socket/Multipart.antt =====
-- Messages that are sent in parts and put together again.
use general_tools.Common.{
  ℕ, zero, suc, ◌+◌, ◌≡◌, ◌≢◌, refl, sym, append-nil, Bool, true, false, List, [], ◌∷◌, ◌++◌,
  if◌then◌else◌, ◌==◌, is_empty, ok, arith, append_assoc,
}
use general_tools.Message.{Message, MessageVector}
use general_tools.Socket.{
  Part, Socket, Action, receives, handles, fails, on_receive, receive_all, send_from, send,
}

-- The parts that hold something; the others are not kept by the receiver.
abbrev pub nonempty : MessageVector → MessageVector
nonempty [] = []
nonempty (m ∷ ms) = if is_empty m then nonempty ms else m ∷ nonempty ms

-- One `async_receive` for each part but the last, then the call of the handler.
abbrev pub receptions : MessageVector → List Action → List Action
receptions [] last = last
receptions (m ∷ []) last = last
receptions (m ∷ n ∷ ms) last = receives ∷ receptions (n ∷ ms) last

-- The parts of a message, as they stand on the wire.
abbrev pub parts_of : MessageVector → List Part
parts_of [] = []
parts_of (m ∷ []) = record { bytes = m; more = false } ∷ []
parts_of (m ∷ n ∷ ms) = record { bytes = m; more = true } ∷ parts_of (n ∷ ms)

module _ (azmq_send : ℕ → Message → Bool → ℕ × ℕ)
    (sends_all : (i : ℕ) (m : Message) (more : Bool) → (azmq_send i m more).1 ≡ 0) where
  pub send_from-parts_of :
      (i : ℕ) (ms : MessageVector) (size : ℕ)
      → ((send_from azmq_send i ms 0 size).parts ≡ parts_of ms)
        × ((send_from azmq_send i ms 0 size).error ≡ 0)
  unfolding send_from
  send_from-parts_of i [] size = (refl, refl)
  send_from-parts_of i (m ∷ []) size = ground (arith, sends_all i m false)
  send_from-parts_of i (m ∷ n ∷ ms) size = ground (
    arith,
    sends_all i m true,
    send_from-parts_of (suc i) (n ∷ ms) (size + (azmq_send i m true).0),
  )

pub received-eq :
    (received : MessageVector) (m : Message)
    → (if is_empty m then received else received ++ m ∷ []) ≡ received ++ nonempty (m ∷ [])
received-eq received [] = sym (append-nil received)
received-eq received (b ∷ m) = refl

pub nonempty-cons :
    (m : Message) (ms : MessageVector) → nonempty (m ∷ ms) ≡ nonempty (m ∷ []) ++ nonempty ms
nonempty-cons [] ms = refl
nonempty-cons (b ∷ m) ms = refl

pub on_receive-more :
    (s : Socket) (m : Message)
    → on_receive s 0 (record { bytes = m; more = true })
      ≡ ok (record s { received_message = s.received_message ++ nonempty (m ∷ []) }, receives ∷ [])
unfolding on_receive
on_receive-more s m = rw (received-eq s.received_message m) refl

receive_all-parts_of :
    (s : Socket) (m : Message) (ms : MessageVector)
    → s.smart_message_handler ≢ 0
    → receive_all s (parts_of (m ∷ ms))
      ≡ ok (
        record s { received_message = [] },
        receptions
            (m ∷ ms)
            (handles s.smart_message_handler (s.received_message ++ nonempty (m ∷ ms)) ∷ []),
      )
unfolding receive_all
receive_all-parts_of s m [] handler =
    unfold on_receive in ground (arith, received-eq s.received_message m)
receive_all-parts_of s m (n ∷ ms) handler =
    let s' : Socket = record s { received_message = s.received_message ++ nonempty (m ∷ []) } in
    let later = receive_all-parts_of s' n ms handler in
    ground (
      arith,
      on_receive-more s m,
      later,
      append_assoc s.received_message (nonempty (m ∷ [])) (nonempty (n ∷ ms)),
      nonempty-cons m (n ∷ ms),
    )

-- What `send` puts on the wire comes back whole: when zmq takes every part, a socket that waits for a
-- new message and whose handler is set receives the parts one by one, asks for each further part, and
-- then calls its handler once, with the parts of the message in order, other than empty ones. The
-- empty message arrives as one without parts.
pub receive_all-send :
    (azmq_send : ℕ → Message → Bool → ℕ × ℕ) (s : Socket) (message : MessageVector)
    → ((i : ℕ) (m : Message) (more : Bool) → (azmq_send i m more).1 ≡ 0)
    → s.smart_message_handler ≢ 0
    → s.received_message ≡ []
    → let sent = send azmq_send message 0 in
      (sent.error ≡ 0)
      × (receive_all s sent.parts
          ≡ ok (s, receptions message (handles s.smart_message_handler (nonempty message) ∷ [])))
unfolding send
receive_all-send azmq_send s [] all handler fresh =
    let back = receive_all-parts_of s [] [] handler in ground (arith, all 0 [] false, back)
receive_all-send azmq_send s (m ∷ ms) all handler fresh =
    let sent = send_from-parts_of azmq_send all 0 (m ∷ ms) 0 in
    let back = receive_all-parts_of s m ms handler in ground (arith, sent, back)

-- A receive error is reported to the error handler, if there is one, and nothing is asked for again;
-- the parts received so far stay, and are put in front of the next message that arrives.
pub receive_error_keeps_parts :
    (s : Socket) (error : ℕ) (part : Part) (m : Message) (ms : MessageVector)
    → error ≢ 0
    → s.smart_message_handler ≢ 0
    → (on_receive s error part
        ≡ ok (s, if s.error_handler == 0 then [] else fails s.error_handler error ∷ []))
      × (receive_all s (parts_of (m ∷ ms))
          ≡ ok (
            record s { received_message = [] },
            receptions
                (m ∷ ms)
                (handles s.smart_message_handler (s.received_message ++ nonempty (m ∷ ms)) ∷ []),
          ))
unfolding on_receive
receive_error_keeps_parts s zero part m ms error handler = absurd (error refl)
receive_error_keeps_parts s (suc e) part m ms error handler =
    (refl, receive_all-parts_of s m ms handler)
