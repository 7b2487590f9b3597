-- ===== src/Socket.antt =====
-- `Socket` (a17/dispatch/socket.h and socket.cpp): messages of several parts over a zmq socket. The
-- azmq socket is not part of the repository: what is asked of it is a list of actions, and the size
-- and error code that its `send` gives for a part is the parameter `azmq_send` (of the number of the
-- part, its bytes and the flag for more). Handlers are named by numbers; 0 is the empty
-- `std::function`, a call of which throws. Logging is left out.
pub mod Multipart
mod Tests
use general_tools.Common.{
  ℕ, zero, suc, ◌+◌, Bool, true, false, List, [], ◌∷◌, ◌++◌, codes, if◌then◌else◌, ◌==◌, is_empty,
  Result, ok, throws,
}
use general_tools.Message.{Message, MessageVector}

-- A part on the wire, and whether more parts of its message follow.
pub record Part : Type 0 where
  pub bytes : Message
  pub more : Bool

pub record Socket : Type 0 where
  pub received_message : MessageVector
  pub smart_message_handler : ℕ
  pub error_handler : ℕ

pub data Action : Type 0 where
  receives : Action
  handles : ℕ → MessageVector → Action
  fails : ℕ → ℕ → Action
  sets_high_water_mark : ℕ → Action

-- The constructor; the high water mark is the one of sent messages.
unfoldable pub init : Socket × List Action
init = (
  record { received_message = []; smart_message_handler = 0; error_handler = 0 },
  sets_high_water_mark 10 ∷ [],
)

unfoldable pub receive : Socket → ℕ → ℕ → Socket × List Action
receive s handler error_handler =
    (record s { smart_message_handler = handler; error_handler = error_handler }, receives ∷ [])

-- `onReceive`, with an error code (0 for none).
unfoldable pub on_receive : Socket → ℕ → Part → Result (Socket × List Action)
on_receive s zero part =
    let received =
      if is_empty part.bytes then s.received_message else s.received_message ++ part.bytes ∷ [] in
    if part.more
    then ok (record s { received_message = received }, receives ∷ [])
    else if s.smart_message_handler == 0
    then throws (codes "bad_function_call")
    else ok (record s { received_message = [] }, handles s.smart_message_handler received ∷ [])
on_receive s (suc error) part =
    ok (s, if s.error_handler == 0 then [] else fails s.error_handler (suc error) ∷ [])

-- The event loop: the handler of the socket is called for each part in turn.
unfoldable pub receive_all : Socket → List Part → Result (Socket × List Action)
receive_all s [] = ok (s, [])
receive_all s (p ∷ ps) = elim (on_receive s 0 p) [
  | throws e ↦ throws e
  | ok (s', actions) ↦ elim (receive_all s' ps) [
    | throws e ↦ throws e
    | ok (s'', later) ↦ ok (s'', actions ++ later)
  ]
]

-- The result of sending: the number of bytes, the error code, and the parts that have been sent.
pub record Sent : Type 0 where
  pub size : ℕ
  pub error : ℕ
  pub parts : List Part

abbrev pub part_if_sent : ℕ → Message → Bool → List Part
part_if_sent error bytes more =
    if error == 0 then record { bytes = bytes; more = more } ∷ [] else []

module _ (azmq_send : ℕ → Message → Bool → ℕ × ℕ) where
  -- The loop over the parts and the last `send`, for the part `i` and those behind it.
  unfoldable pub send_from : ℕ → MessageVector → ℕ → ℕ → Sent
  send_from i [] error size = record { size = size; error = error; parts = [] }
  send_from i (m ∷ []) error size =
      let (n, error') = azmq_send i m false in
      if error == 0
      then record { size = size + n; error = error'; parts = part_if_sent error' m false }
      else record { size = size; error = error; parts = [] }
  send_from i (m ∷ m' ∷ ms) error size =
      let (n, error') = azmq_send i m true in
      let rest = send_from (suc i) (m' ∷ ms) error' (size + n) in
      if error == 0
      then record rest { parts = part_if_sent error' m true ++ rest.parts }
      else record { size = size; error = error; parts = [] }

  -- `send(message_vector, ec)`, with the error code that the caller passes in.
  unfoldable pub send : MessageVector → ℕ → Sent
  unfolding send_from
  send [] error =
      let (n, error') = azmq_send 0 [] false in
      record { size = n; error = error'; parts = part_if_sent error' [] false }
  send (m ∷ ms) error = send_from 0 (m ∷ ms) error 0
