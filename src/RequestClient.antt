-- ===== src/RequestClient.antt =====
-- `RequestClient` (a17/dispatch/request_client.h and request_client.cpp): one outstanding request
-- over a zmq REQ socket to the newest advertiser of a topic. The zmq socket and the timer of boost
-- are not part of the repository: the result of `send` is an argument, and what is asked of them is
-- a list of actions. Handlers are named by numbers; 0 is the empty `std::function`. A socket is
-- named by a number that `make_unique` has not given before.
pub mod Newest
pub mod Request
pub mod Cycle
mod Tests
use general_tools.Common.{
  ℕ, zero, suc, ◌+◌, ◌<◌, Bool, true, false, ◌&&◌, not, Option, none, some, List, [], ◌∷◌, ◌++◌,
  Text, codes, if◌then◌else◌, ltb, ◌==◌, Result, ok, throws, is_some, is_empty,
}
use general_tools.Message.{MessageVector}
use general_tools.TopicStore.{DirectoryTopic, GuidTopicMap, topic_eq}

-- The error codes that the code makes, and those of zmq's `send`.
pub data ErrorCode : Type 0 where
  none_set connection_already_in_progress not_connected timed_out : ErrorCode
  of_send : ℕ → ErrorCode

pub data Action : Type 0 where
  connects : ℕ → Text → Action
  disconnects : ℕ → Text → Action
  sends : ℕ → MessageVector → Action
  receives : ℕ → ℕ → Action
  waits : ℕ → Action
  cancels : Action
  replies : ℕ → Action
  fails : ℕ → ErrorCode → Action

pub record RequestClient : Type 0 where
  pub socket : Option ℕ
  pub next_socket : ℕ
  pub reply_handler : ℕ
  pub waiting_for_receive : Bool
  pub connected_topic : Option DirectoryTopic

-- The state after the constructor.
abbrev pub init : RequestClient
init = record {
  socket = none;
  next_socket = 0;
  reply_handler = 0;
  waiting_for_receive = false;
  connected_topic = none;
}

abbrev pub is_connected : RequestClient → Bool
is_connected c = is_some c.socket

-- The loop of `NewestTopic`: a later topic wins only if it is newer.
unfoldable pub newest_from : DirectoryTopic → GuidTopicMap → DirectoryTopic
newest_from newest [] = newest
newest_from newest ((guid, topic) ∷ topics) =
    newest_from (if ltb newest.timestamp topic.timestamp then topic else newest) topics

unfoldable pub newest_topic : GuidTopicMap → Result DirectoryTopic
unfolding newest_from
newest_topic [] = throws (codes "Empty guid_topic_map")
newest_topic ((guid, topic) ∷ topics) = ok (newest_from topic ((guid, topic) ∷ topics))

-- The address of the connected topic.
abbrev pub connected_address : RequestClient → Text
connected_address c = elim c.connected_topic [ none ↦ [] | some topic ↦ topic.address ]

unfoldable pub disconnect : RequestClient → RequestClient × List Action
disconnect c = elim c.socket [
  | none ↦ (c, [])
  | some socket ↦ (record c { socket = none }, disconnects socket (connected_address c) ∷ [])
]

abbrev pub is_topic : Option DirectoryTopic → DirectoryTopic → Bool
is_topic none topic = false
is_topic (some connected) topic = topic_eq topic connected

unfoldable pub connect : RequestClient → DirectoryTopic → RequestClient × List Action
unfolding disconnect
connect c topic =
    if is_connected c && is_topic c.connected_topic topic
    then (c, [])
    else let (c', actions) = disconnect c in
      (
        record c' {
          connected_topic = some topic;
          socket = some c'.next_socket;
          next_socket = suc c'.next_socket;
        },
        actions ++ connects c'.next_socket topic.address ∷ [],
      )

unfoldable pub reconnect : RequestClient → RequestClient × List Action
unfolding disconnect connect
reconnect c = elim c.connected_topic [
  | none ↦ (c, [])
  | some topic ↦
      if is_connected c
      then (let (c', gone) = disconnect c in
          let (c'', back) = connect c' topic in (c'', gone ++ back))
      else (c, [])
]

unfoldable pub on_directory_topics_changed :
    RequestClient → GuidTopicMap → Result (RequestClient × List Action)
unfolding disconnect connect newest_topic
on_directory_topics_changed c topics =
    if is_empty topics
    then ok (disconnect c)
    else elim (newest_topic topics) [ throws e ↦ throws e | ok topic ↦ ok (connect c topic) ]

abbrev pub cleanup_request : RequestClient → RequestClient × List Action
cleanup_request c = (record c { waiting_for_receive = false }, cancels ∷ [])

-- `request` of a message, with the error code that `send` gives (0 for none) and the whole seconds of the timeout
-- (`none` if the timeout is not positive).
unfoldable pub request :
    RequestClient → MessageVector → ℕ → ℕ → ℕ → Option ℕ → RequestClient × ErrorCode × List Action
request c message send_error reply error timeout =
    let c' = record c { reply_handler = reply } in
    if c.waiting_for_receive then (c', connection_already_in_progress, []) else elim c.socket [
      | none ↦ (c', not_connected, [])
      | some socket ↦
          if send_error == 0
          then (
            record c' { waiting_for_receive = true },
            none_set,
            sends socket message
                ∷ receives socket error
                ∷ elim timeout [ none ↦ [] | some seconds ↦ waits seconds ∷ [] ],
          )
          else (c', of_send send_error, sends socket message ∷ [])
    ]

-- `sendReplyToHandler`.
unfoldable pub send_reply_to_handler : RequestClient → RequestClient × List Action
send_reply_to_handler c =
    let (c', actions) = cleanup_request c in (c', actions ++ replies c'.reply_handler ∷ [])

-- The handler of the timeout, with the flag set when the timer was cancelled. Calling an empty
-- `std::function` throws.
unfoldable pub on_timeout : RequestClient → Bool → ℕ → Result (RequestClient × List Action)
unfolding reconnect
on_timeout c true error = ok (c, [])
on_timeout c false error =
    let (c', cleaned) = cleanup_request c in
    let (c'', again) = reconnect c' in
    if error == 0
    then throws (codes "bad_function_call")
    else ok (c'', cleaned ++ (again ++ fails error timed_out ∷ []))
