-- ===== src/Node/Tests.antt =====
-- Two nodes at one typed message, and a typed request.
use general_tools.Common.{
  ℕ, zero, suc, ◌+◌, ◌/◌, ◌≡◌, map, refl, [], ◌∷◌, true, false, Bool, List, Text, codes, none, some,
  Option, ok, throws, length, arith, is_empty, if◌then◌else◌,
}
use general_tools.BufferPool.{BufferPool}
use general_tools.Common.Bytes.{to_bytes}
use general_tools.Message.{MessageVector, id_from_smart_message}
use general_tools.Socket.{Socket, receives, handles, send}
use general_tools.Listener.{serve}
use general_tools.Listener
use general_tools.ReplyServer
use general_tools.ReplyServer.Replies.{exchange, reply_of}
use general_tools.SmartCapnpBuilder.{SmartCapnpBuilder, get_smart_message}
use general_tools.SmartCapnpBuilder.Frame.{framed, total_words}
use general_tools.SmartCapnpReader.{Capnp, of_message, of_message_vector, get_root}
use general_tools.Node.{
  Node, handles_root, init, stop, start, destroy, signal, device_name, subscriber_handler,
  reply_handler,
}
use general_tools.Node.Typed.{typed_message_delivered}
use general_tools.Node.Replies.{is_request, typed_requests_answered}

name_runs : init (codes "a b") ≡ throws (codes "Process name must not contain spaces")
unfolding init
name_runs = refl

device_runs :
    (device_name [] (some (codes "x")) ≡ codes "x") × (device_name (codes "y") none ≡ codes "y")
unfolding device_name
device_runs = (refl, refl)

abbrev node : Node
node = record {
  name = codes "Node";
  signaled_shutdown = false;
  stopped = false;
  has_thread = false;
  waits_for_signal = true;
}

life_runs :
    ((destroy (start node)).1 ≡ true)
    × ((signal node 0).stopped ≡ true)
    × ((signal node 4).stopped ≡ false)
unfolding destroy start signal stop
life_runs = (refl, refl, refl)

abbrev pool : BufferPool
pool = record {
  pool = 100;
  pool_size = 16;
  buffer_size = 8;
  buffer_count = 2;
  single_threaded = false;
  ptrs = 100 ∷ 108 ∷ 0 ∷ [];
  head = 0;
  tail = 2;
}

abbrev builder : SmartCapnpBuilder
builder = record {
  id = 77;
  next_size = 1;
  own_first_segment = true;
  returned_first_segment = false;
  first_segment = record { block = 0; is_pooled = false };
  more_segments = [];
  invalidated = false;
}

abbrev segments : List (List ℕ)
segments = (5 ∷ []) ∷ []

abbrev stream_size : List (List ℕ) → ℕ
stream_size ss = length ss / 2 + 1 + total_words ss

abbrev nothing : ℕ → List ℕ
nothing zero = []
nothing (suc n) = 0 ∷ nothing n

abbrev socket : Socket
socket = record { received_message = []; smart_message_handler = 0; error_handler = 0 }

-- Bytes as they are, but for an empty buffer.
abbrev buffer_of : Capnp (List ℕ)
buffer_of = record {
  raises_open = λ b. if is_empty b then some (codes "empty") else none;
  read_root = ok;
}

abbrev no_error : List ℕ → Option Text
no_error b = none

typed_message_delivered_example :
    let message = (get_smart_message stream_size builder segments pool 7 nothing).0 in
    let (l, socket', actions) = Listener.init socket 3 0 in
    (serve (λ h m. false) l socket' (send (λ i m more. (1, 0)) message 0).parts
      ≡ ok (socket', receives ∷ handles 3 message ∷ receives ∷ []))
    × (subscriber_handler buffer_of 77 no_error message
        ≡ some (handles_root (framed segments) ∷ []))
unfolding to_bytes
typed_message_delivered_example =
    typed_message_delivered buffer_of (framed segments) stream_size builder segments pool 7 nothing
      no_error (λ i m more. (1, 0)) (λ h m. false) socket 3 0 refl refl (omega arith) refl refl refl
      (λ i m more. refl) (omega arith) (λ m. refl) refl

-- The application replies with the buffer of the request, and to an error with an empty part.
abbrev echoes : List ℕ → List MessageVector × Option Text
echoes b = ((b ∷ []) ∷ [], none)

abbrev apologises : Text → List MessageVector × Bool
apologises e = (([] ∷ []) ∷ [], false)

abbrev react : ℕ → MessageVector → List MessageVector × Bool
unfolding reply_handler
react h m = elim (reply_handler buffer_of 77 echoes apologises m) [
  | none ↦ ([], false)
  | some r ↦ r
]

echo_reacts :
    (m : MessageVector)
    → is_request m ≡ true
    → reply_handler buffer_of 77 echoes apologises m ≡ some (react 3 m)
unfolding react reply_handler of_message_vector of_message get_root id_from_smart_message
echo_reacts [] parts = absurd (ground (arith, parts))
echo_reacts (m ∷ []) parts = absurd (ground (arith, parts))
echo_reacts (m ∷ n ∷ ms) parts = ground (arith, parts)

abbrev requests : List MessageVector
requests =
    (to_bytes 8 77 ∷ to_bytes 8 1 ∷ [])
    ∷ (to_bytes 8 77 ∷ [] ∷ [])
    ∷ (to_bytes 8 5 ∷ to_bytes 8 1 ∷ [])
    ∷ []

typed_requests_answered_example :
    let (s, actions) = ReplyServer.init socket 3 0 in
    (actions ≡ ReplyServer.receives ∷ [])
    × (ReplyServer.serve react s requests
        ≡ (s, exchange (map (λ m. reply_of (react 3 m)) requests)))
unfolding to_bytes
typed_requests_answered_example =
    typed_requests_answered buffer_of 77 echoes apologises react socket 3 0 requests (λ b. refl)
      (λ e. ([] ∷ [], refl)) echo_reacts (omega arith) refl
