-- ===== src/RequestClient/Tests.antt =====
-- A client of one topic, and the theorems at it.
use general_tools.Common.{ℕ, ◌≡◌, refl, true, false, none, some, [], ◌∷◌, codes, ok, arith}
use general_tools.TopicStore.{DirectoryTopic, GuidTopicMap}
use general_tools.RequestClient.{
  RequestClient, init, none_set, connection_already_in_progress, timed_out, cancels, replies,
  disconnects, connects, fails, newest_topic, request, send_reply_to_handler,
  on_directory_topics_changed, on_timeout,
}
use general_tools.RequestClient.Request.{refused_request_takes_reply, on_timeout_recovers}

abbrev topic_of : ℕ → DirectoryTopic
topic_of n = record {
  name = codes "service";
  timestamp = n;
  socket_type = 4;
  address = codes "tcp://10.0.0.2:5000";
  input_types = [];
  output_types = [];
  guid = codes "peer";
  info = [];
}

abbrev servers : GuidTopicMap
servers = (codes "a", topic_of 5) ∷ (codes "b", topic_of 8) ∷ (codes "c", topic_of 8) ∷ []

abbrev waiting : RequestClient
waiting = record {
  socket = some 0;
  next_socket = 1;
  reply_handler = 3;
  waiting_for_receive = true;
  connected_topic = some (topic_of 5);
}

newest_topic_runs : newest_topic servers ≡ ok (topic_of 8)
unfolding newest_topic
newest_topic_runs = refl

refused_request_takes_reply_example :
    let (c', code, actions) = request waiting [] 0 7 8 none in
    (code ≡ connection_already_in_progress)
    × (actions ≡ [])
    × ((send_reply_to_handler c').1 ≡ cancels ∷ replies 7 ∷ [])
refused_request_takes_reply_example = refused_request_takes_reply waiting [] 0 7 8 none refl

topics_changed_runs :
    on_directory_topics_changed waiting []
    ≡ ok (record waiting { socket = none }, disconnects 0 (codes "tcp://10.0.0.2:5000") ∷ [])
unfolding on_directory_topics_changed
topics_changed_runs = refl

on_timeout_recovers_example :
    (c' : RequestClient) × (on_timeout waiting false 9
      ≡ ok (
        c',
        cancels
            ∷ disconnects 0 (topic_of 5).address
            ∷ connects 1 (topic_of 5).address
            ∷ fails 9 timed_out
            ∷ [],
      ))
    × (c'.socket ≡ some 1)
    × ((request c' [] 0 7 8 none).1 ≡ none_set)
on_timeout_recovers_example =
    on_timeout_recovers waiting 0 9 7 8 [] (topic_of 5) refl refl (omega arith)

-- A new client that learns of its servers and asks twice, then gets the reply.
abbrev connected : RequestClient
connected = record init { socket = some 0; next_socket = 1; connected_topic = some (topic_of 8) }

abbrev first_asked : RequestClient
unfolding request
first_asked = (request connected [] 0 7 8 none).0
