-- ===== src/ReplyServer.antt =====
-- `ReplyServer` (a17/dispatch/reply_server.h and reply_server.cpp): the server of a request socket. A
-- handler is named by a number, 0 for the empty `std::function`; `request_handler` is the one that is
-- bound to `ReplyServer::onRequest`. What a handler of the application does with a request is the
-- parameter `react`: the replies that it passes to the reply sender before it returns, and whether it
-- throws a `std::exception` then. What zmq makes of a send is not part of the file: its error is only logged.
pub mod Replies
mod Tests
use general_tools.Common.{ℕ, ◌+◌, Bool, true, false, ◌||◌, List, [], ◌∷◌, ◌++◌, if◌then◌else◌, ◌==◌}
use general_tools.Message.{MessageVector}
use general_tools.Socket.{Socket, receive}

abbrev pub request_handler : ℕ
request_handler = 1

pub record ReplyServer : Type 0 where
  pub socket : Socket
  pub reply_handler : ℕ
  pub error_handler : ℕ

pub data Action : Type 0 where
  sends : MessageVector → Action
  receives : Action

abbrev pub receive_request : ReplyServer → ReplyServer
receive_request s = record s { socket = (receive s.socket request_handler s.error_handler).0 }

-- The constructors, once the base class has bound the socket.
unfoldable pub init : Socket → ℕ → ℕ → ReplyServer × List Action
unfolding receive
init socket handler error = (
  receive_request (record { socket = socket; reply_handler = handler; error_handler = error }),
  receives ∷ [],
)

unfoldable pub set_reply_handler : ReplyServer → ℕ → ReplyServer
set_reply_handler s handler = record s { reply_handler = handler }

unfoldable pub send_reply : ReplyServer → MessageVector → ReplyServer × List Action
unfolding receive
send_reply s reply = (receive_request s, sends reply ∷ receives ∷ [])

-- The calls of the reply sender, in order.
unfoldable pub send_replies : ReplyServer → List MessageVector → ReplyServer × List Action
unfolding send_reply
send_replies s [] = (s, [])
send_replies s (reply ∷ replies) =
    let (s', actions) = send_reply s reply in
    let (s'', later) = send_replies s' replies in (s'', actions ++ later)

module _ (react : ℕ → MessageVector → List MessageVector × Bool) where
  unfoldable pub on_request : ReplyServer → MessageVector → ReplyServer × List Action
  unfolding send_replies
  on_request s message =
      let (replies, threw) = react s.reply_handler message in
      let (s', actions) = send_replies s replies in
      if s.reply_handler == 0
      then (receive_request s, sends [] ∷ receives ∷ [])
      else if threw
      then (receive_request s', actions ++ sends [] ∷ receives ∷ [])
      else (s', actions)

  -- The requests that arrive one after another.
  unfoldable pub serve : ReplyServer → List MessageVector → ReplyServer × List Action
  unfolding on_request
  serve s [] = (s, [])
  serve s (request ∷ requests) =
      let (s', actions) = on_request s request in
      let (s'', later) = serve s' requests in (s'', actions ++ later)
