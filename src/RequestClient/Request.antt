-- ===== src/RequestClient/Request.antt =====
-- The request cycle: who may send, who gets the reply, and what a change of topic does to a request
-- that is under way.
use general_tools.Common.{
  ℕ, suc, ◌≡◌, ◌≢◌, refl, true, false, not, Option, none, some, List, [], ◌∷◌, arith, is_empty, ok,
}
use general_tools.Message.{MessageVector}
use general_tools.TopicStore.{DirectoryTopic, GuidTopicMap}
use general_tools.RequestClient.{
  RequestClient, none_set, connection_already_in_progress, timed_out, Action, connects, disconnects,
  cancels, replies, fails, is_connected, disconnect, connect, on_directory_topics_changed, request,
  send_reply_to_handler, on_timeout,
}
use general_tools.RequestClient.Newest.{newest_topic-IsNewest}

-- A request that is refused because another one is under way still replaces the reply handler: the
-- reply to the earlier request then goes to the handler of the refused one.
pub refused_request_takes_reply :
    (c : RequestClient) (message : MessageVector) (send_error reply error : ℕ) (timeout : Option ℕ)
    → c.waiting_for_receive ≡ true
    → let (c', code, actions) = request c message send_error reply error timeout in
      (code ≡ connection_already_in_progress)
      × (actions ≡ [])
      × ((send_reply_to_handler c').1 ≡ cancels ∷ replies reply ∷ [])
unfolding request send_reply_to_handler
refused_request_takes_reply c message send_error reply error timeout waiting = ground arith

disconnect-lem :
    (c : RequestClient)
    → (is_connected (disconnect c).0 ≡ false)
      × ((disconnect c).0.waiting_for_receive ≡ c.waiting_for_receive)
unfolding disconnect
disconnect-lem c = ground arith

connect-lem :
    (c : RequestClient) (t : DirectoryTopic)
    → (is_connected (connect c t).0 ≡ true)
      × ((connect c t).0.waiting_for_receive ≡ c.waiting_for_receive)
unfolding connect disconnect
connect-lem c t = ground arith

-- A change of the topic's advertisers is always handled, and then the client is connected exactly if
-- there is an advertiser.
pub topics_changed_lem :
    (c : RequestClient) (topics : GuidTopicMap)
    → (c' : RequestClient) × (actions : List Action) × (on_directory_topics_changed c topics
        ≡ ok (c', actions))
      × (is_connected c' ≡ not (is_empty topics))
unfolding on_directory_topics_changed
topics_changed_lem c [] = ((disconnect c).0, (disconnect c).1, refl, (disconnect-lem c).0)
topics_changed_lem c (e ∷ topics) =
    let (t, found, newest) = newest_topic-IsNewest (e ∷ topics) refl in
    ((connect c t).0, (connect c t).1, ground (arith, found), (connect-lem c t).0)

-- A change of advertisers while a request is under way leaves the client waiting, also if it has
-- connected to another socket since: every further request is refused.
pub topics_changed_keeps_waiting :
    (c : RequestClient) (topics : GuidTopicMap) {c' : RequestClient} {actions : List Action}
    (message : MessageVector) (send_error reply error : ℕ) (timeout : Option ℕ)
    → c.waiting_for_receive ≡ true
    → on_directory_topics_changed c topics ≡ ok (c', actions)
    → (c'.waiting_for_receive ≡ true)
      × ((request c' message send_error reply error timeout).1 ≡ connection_already_in_progress)
unfolding on_directory_topics_changed request
topics_changed_keeps_waiting c [] message send_error reply error timeout waiting e =
    ground (arith, (disconnect-lem c).1)
topics_changed_keeps_waiting c (x ∷ topics) message send_error reply error timeout waiting e =
    let (t, found, newest) = newest_topic-IsNewest (x ∷ topics) refl in
    ground (arith, found, (connect-lem c t).1)

-- A request that times out, with an error handler, is over: the old socket is closed, a new one is
-- connected to the same topic, the handler is told, and the next request is accepted.
pub on_timeout_recovers :
    (c : RequestClient) (socket error reply handler : ℕ) (message : MessageVector)
    (topic : DirectoryTopic)
    → c.socket ≡ some socket
    → c.connected_topic ≡ some topic
    → error ≢ 0
    → (c' : RequestClient) × (on_timeout c false error
        ≡ ok (
          c',
          cancels
              ∷ disconnects socket topic.address
              ∷ connects c.next_socket topic.address
              ∷ fails error timed_out
              ∷ [],
        ))
      × (c'.socket ≡ some c.next_socket)
      × ((request c' message 0 reply handler none).1 ≡ none_set)
unfolding on_timeout request
on_timeout_recovers c socket error reply handler message topic s t h = (
  record c {
    socket = some c.next_socket;
    next_socket = suc c.next_socket;
    waiting_for_receive = false;
  },
  ground arith,
  refl,
  ground arith,
)
