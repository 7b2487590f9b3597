-- ===== src/Listener.antt =====
-- `Listener` (a17/dispatch/listener.h and listener.cpp), and the filters that `Subscriber` and
-- `SubServer` (subscriber.cpp, sub_server.cpp) put on their sockets. A listener is always handed
-- to the socket that it is part of, so an operation takes and gives back that socket. Handlers are
-- named by numbers: 0 is the empty `std::function`, and `listener_handler` is the one that is bound to
-- `Listener::onMessage`. Whether a handler of the client throws is the parameter `handler_throws`; what
-- `std::stoull` reads is the parameter `stoull`. Logging is left out.
pub mod Delivery
pub mod Filters
mod Tests
use general_tools.Common.{
  ℕ, zero, suc, ◌+◌, ◌≡◌, Bool, true, false, ◌||◌, List, [], ◌∷◌, ◌++◌, Text, codes, if◌then◌else◌,
  ◌==◌, is_empty, Option, none, some, Result, ok, throws, text_eq,
}
use general_tools.Common.Bytes.{to_bytes}
use general_tools.Message.{Message, MessageVector}
use general_tools.Socket.{
  Socket, Part, Action, receives, handles, fails, sets_high_water_mark, receive, on_receive,
}

abbrev pub listener_handler : ℕ
listener_handler = 1

pub record Listener : Type 0 where
  pub wrapped_handler : ℕ
  pub error_handler : ℕ

-- The constructor, on a socket.
unfoldable pub init : Socket → ℕ → ℕ → Listener × Socket × List Action
unfolding receive
init socket handler error =
    let (socket', actions) = receive socket listener_handler error in
    (record { wrapped_handler = handler; error_handler = error }, socket', actions)

unfoldable pub set_message_handler : Listener → ℕ → Listener
set_message_handler l handler = record l { wrapped_handler = handler }

module _ (handler_throws : ℕ → MessageVector → Bool) where
  -- `onMessage`. An exception of the handler leaves it before the next `receive`.
  unfoldable pub on_message : Listener → Socket → MessageVector → Result (Socket × List Action)
  unfolding receive
  on_message l socket message =
      let (socket', actions) = receive socket listener_handler l.error_handler in
      if l.wrapped_handler == 0 || handler_throws l.wrapped_handler message
      then throws (codes "exception in the message handler")
      else ok (socket', handles l.wrapped_handler message ∷ actions)

  -- The handler that `all` makes of a list of handlers: its calls, in order.
  unfoldable pub call_all : List ℕ → MessageVector → Result (List Action)
  call_all [] message = ok []
  call_all (h ∷ hs) message =
      let later = call_all hs message in
      if h == 0 || handler_throws h message
      then throws (codes "exception in the message handler")
      else elim later [ throws e ↦ throws e | ok actions ↦ ok (handles h message ∷ actions) ]

  -- What follows an action that the socket asked for: its call of `listener_handler` runs `onMessage`.
  unfoldable pub relay : Listener → Socket → List Action → Result (Socket × List Action)
  unfolding on_message
  relay l socket [] = ok (socket, [])
  relay l socket (handles h message ∷ actions) =
      if h == listener_handler
      then on_message l socket message
      else ok (socket, handles h message ∷ actions)
  relay l socket (receives ∷ actions) = ok (socket, receives ∷ actions)
  relay l socket (fails h error ∷ actions) = ok (socket, fails h error ∷ actions)
  relay l socket (sets_high_water_mark n ∷ actions) = ok (socket, sets_high_water_mark n ∷ actions)

  -- One part that zmq delivers to the socket of a listener.
  unfoldable pub on_part : Listener → Socket → Part → Result (Socket × List Action)
  unfolding relay
  on_part l socket part = elim (on_receive socket 0 part) [
    | throws e ↦ throws e
    | ok (socket', actions) ↦ relay l socket' actions
  ]

  -- The event loop.
  unfoldable pub serve : Listener → Socket → List Part → Result (Socket × List Action)
  unfolding on_part
  serve l socket [] = ok (socket, [])
  serve l socket (p ∷ ps) = elim (on_part l socket p) [
    | throws e ↦ throws e
    | ok (socket', actions) ↦ elim (serve l socket' ps) [
      | throws e ↦ throws e
      | ok (socket'', later) ↦ ok (socket'', actions ++ later)
    ]
  ]

-- `SubServer::applyFilters`: the prefixes that the socket subscribes to.
unfoldable pub sub_server_filters : List Text → List (List ℕ)
sub_server_filters [] = []
sub_server_filters (filter ∷ filters) = filter ∷ sub_server_filters filters

module _ (stoull : Text → Result ℕ) where
  -- `Subscriber::applyFilters`: the prefixes that the socket subscribes to, and the error of `stoull`
  -- that ends the loop, if there is one.
  unfoldable pub subscriber_filters : List Text → List (List ℕ) × Option Text
  subscriber_filters [] = ([], none)
  subscriber_filters (filter ∷ filters) =
      let (later, error) = subscriber_filters filters in
      if is_empty filter
      then ([] ∷ later, error)
      else elim (stoull filter) [ throws e ↦ ([], some e) | ok id ↦ (to_bytes 8 id ∷ later, error) ]
