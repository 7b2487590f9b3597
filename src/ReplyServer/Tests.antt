-- ===== src/ReplyServer/Tests.antt =====
-- A reply server whose handler answers a request and then throws.
use general_tools.Common.{ℕ, ◌≡◌, refl, [], ◌∷◌, true, Bool, List}
use general_tools.Message.{MessageVector}
use general_tools.Socket.{Socket}
use general_tools.ReplyServer.{ReplyServer, sends, receives, on_request, send_replies, send_reply}

abbrev socket : Socket
socket = record { received_message = []; smart_message_handler = 0; error_handler = 0 }

abbrev answer : MessageVector
answer = (7 ∷ []) ∷ []

abbrev replies_and_throws : ℕ → MessageVector → List MessageVector × Bool
replies_and_throws h m = (answer ∷ [], true)

abbrev server : ReplyServer
server = record { socket = socket; reply_handler = 3; error_handler = 0 }

throw_runs :
    (on_request replies_and_throws server []).1 ≡ sends answer ∷ receives ∷ sends [] ∷ receives ∷ []
unfolding on_request send_replies send_reply
throw_runs = refl
