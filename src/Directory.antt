-- ===== src/Directory.antt =====
-- `Directory` (class in a17/dispatch/directory.h, code in directory.cpp): the discovery protocol of
-- one node. An operation returns the new state and what it does, in order: datagrams that it sends
-- to the multicast group, calls of observers, a call posted to the event loop, and the query timer.
-- The clock and generated uuids are arguments. `OwnAddress::onNetwork` (of the host's interfaces) is
-- the parameter `on_network`. Here the text of a datagram is an action; Transmit has the buffer of the
-- pool that it is formatted into, the size of that buffer, and the parts that the socket takes. Names
-- hold no NUL.
pub mod Receive
pub mod Announce
pub mod Envelope
pub mod Deliver
pub mod Departure
pub mod Query
pub mod Search
pub mod Transmit
mod Tests
use general_tools.Common.{
  ℕ, zero, suc, ◌+◌, ◌-◌, ◌*◌, ◌%◌, ◌≤◌, ◌<◌, Bool, true, false, ◌&&◌, ◌||◌, not, Option, none,
  some, List, [], ◌∷◌, ◌++◌, map, Text, codes, text_eq, if◌then◌else◌, ltb, leb, ◌==◌, get_or,
  length, is_empty, any, all, Result, ok, throws,
}
use general_tools.Common.OrderedMap.{OrderedMap, OrderedSet, lookup}
use general_tools.Address
use general_tools.SocketTypes.{from_name}
use general_tools.TopicStore.{DirectoryTopic, DirectoryTopicStore, Call, find_local, get_missing}
use general_tools.TopicStore
use general_tools.Wire.{
  event_buffer_size, dispatch, space, discovery_exit, discovery_available, discovery_remove,
  discovery_search, c_str, next_token, parse_types, build_topic_info,
}

-- Times are in milliseconds.
abbrev pub query_interval : ℕ
query_interval = 1000

abbrev pub query_interval_max : ℕ
query_interval_max = 16000

abbrev pub query_zero : ℕ
query_zero = 50

abbrev pub query_interval_mult : ℕ
query_interval_mult = 2

pub record Directory : Type 0 where
  pub my_guid : Text
  pub topics : DirectoryTopicStore
  pub timer_active : Bool
  pub interval : ℕ
  pub next_server_port : ℕ

pub data Action : Type 0 where
  sends : Text → Action
  calls : Call → Action
  posts : Text → ℕ → Action
  cancels : Action
  waits : ℕ → Action

abbrev pub Effect : Type 0
Effect = Directory × List Action

-- The guid of a node, `name_address_uuid`, and the state after the constructor.
unfoldable pub init : Text → Text → Text → ℕ → Directory
unfolding TopicStore.init
init name own_address uuid port =
    let guid = name ++ (b'_' ∷ (own_address ++ (b'_' ∷ uuid))) in
    record {
      my_guid = guid;
      topics = TopicStore.init guid;
      timer_active = false;
      interval = 0;
      next_server_port = port;
    }

-- `nextServerPort_ ? nextServerPort_++ : 0`, a `uint16_t`.
unfoldable pub take_server_port : Directory → ℕ × Directory
take_server_port d =
    if d.next_server_port == 0
    then (0, d)
    else (d.next_server_port, record d { next_server_port = (d.next_server_port + 1) % 65536 })

-- What `send` formats, of texts without NUL, where it fits the buffer of the pool: `Transmit.send` has no
-- result where it does not.
unfoldable pub datagram : Text → ℕ → Text → Text
datagram guid command args =
    dispatch ++ (guid ++ (space ∷ command ∷ (if is_empty args then [] else space ∷ args)))

abbrev pub start_query_timer : Directory → Effect
start_query_timer d = (
  record d { timer_active = true; interval = query_interval },
  (if d.timer_active then cancels ∷ [] else []) ++ waits query_zero ∷ [],
)

unfoldable pub add :
    Directory → ℕ → Text → ℕ → Text → OrderedSet → OrderedSet → Text → Result (Bool × Effect)
add d now name type address ins outs guid = elim (TopicStore.add d.topics topic) [
  | throws e ↦ throws e
  | ok (mine, store, called) ↦ ok (
    mine,
    (
      record d { topics = store },
      map calls called
          ++ (if mine then sends (datagram d.my_guid discovery_available topic.info) ∷ [] else []),
    ),
  )
]
  where
    topic : DirectoryTopic
    topic = record {
      name = name;
      timestamp = now;
      socket_type = type;
      address = address;
      input_types = ins;
      output_types = outs;
      guid = guid;
      info = build_topic_info name type address ins outs;
    }

unfoldable pub remove : Directory → Text → Effect
remove d name =
    let (removed, store, called) = TopicStore.remove d.topics d.my_guid name in
    (
      record d { topics = store },
      map calls called
          ++ (if removed then sends (datagram d.my_guid discovery_remove name) ∷ [] else []),
    )

unfoldable pub observe : Directory → Text → ℕ → Text → Text × Effect
observe d name handler uuid =
    let (ref, store) = TopicStore.observe d.topics name handler uuid in
    let (d', actions) = start_query_timer (record d { topics = store }) in
    (ref, (d', posts name handler ∷ actions))

unfoldable pub unobserve : Directory → Text → Text → Effect
unobserve d name ref =
    start_query_timer (record d { topics = TopicStore.unobserve d.topics name ref })

-- The destructor.
unfoldable pub destroy : Directory → List Action
destroy d = sends (datagram d.my_guid discovery_exit []) ∷ []

-- The loop of `queryMissingTopics` behind the first topic: the buffer so far and its topics. Whether the
-- texts fit the buffer is tested in `query_missing_topics`, as no text is longer than the one it grows to.
unfoldable pub query_rest : Text → Text → ℕ → List Text → List Text
query_rest header buf count [] = if ltb (length header) (length buf) then buf ∷ [] else []
query_rest header buf count (t ∷ ts) =
    let full = leb event_buffer_size (length buf + 1 + length t) || leb 4 count in
    let rest =
      query_rest header ((if full then header else buf) ++ space ∷ t)
        (if full then 1 else count + 1) ts in
    if full then buf ∷ rest else rest

-- The datagrams of one round of queries.
unfoldable pub queries : Text → List Text → List Text
unfolding query_rest
queries guid [] = []
queries guid (t ∷ ts) =
    let header = datagram guid discovery_search [] in query_rest header (header ++ space ∷ t) 1 ts

-- The handler of the query timer; the flag is its error code, set when the timer was cancelled. Where a
-- query with its NUL does not fit the buffer of the pool, `strcpy` writes behind the buffer: then the
-- behaviour is undefined, and there is no result.
unfoldable pub query_missing_topics : Directory → Bool → Option Effect
unfolding queries
query_missing_topics d true = some (d, [])
query_missing_topics d false =
    let requests = get_missing d.topics in
    if is_empty requests
    then some (record d { timer_active = false }, [])
    else let texts = queries d.my_guid requests in
      if all (λ text. ltb (length text) event_buffer_size) texts
      then some (record d { interval = longer }, waits d.interval ∷ map sends texts)
      else none
  where
    doubled : ℕ
    doubled =
        if ltb d.interval query_interval_max then d.interval * query_interval_mult else d.interval

    longer : ℕ
    longer = if ltb query_interval_max doubled then query_interval_max else doubled
