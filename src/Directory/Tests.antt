-- ===== src/Directory/Tests.antt =====
-- Two nodes, what one of them takes in of the other's datagrams, and the theorems at them.
use general_tools.Common.{
  ◌≤◌, ◌≡◌, refl, Bool, true, false, List, [], ◌∷◌, ◌++◌, map, Text, codes, text_eq, text_ltb,
  if◌then◌else◌, length, ok, arith, ◌&&◌, is_some, none,
}
use general_tools.Common.OrderedMap.{OrderedSet, lookup}
use general_tools.Address.{Address, make, parse, address, on_network}
use general_tools.Address.RoundTrip.{parse-address}
use general_tools.SocketTypes.{from_type}
use general_tools.TopicStore
use general_tools.TopicStore.Observers.{told_of}
use general_tools.TopicStore.Registry.{registered}
use general_tools.TopicStore.Notify.{advertisers}
use general_tools.TopicStore.{DirectoryTopic, get_missing}
use general_tools.Wire.{
  until_nul, next_token, discovery_available, discovery_exit, discovery_remove, discovery_search,
  build_topic_info, write_types,
}
use general_tools.Wire.Types.{SortedSet}
use general_tools.Directory.{
  Directory, init, datagram, add, observe, start_query_timer, queries, calls, sends,
  query_interval_max, take_server_port,
}
use general_tools.Directory.Receive.{event, discovery_search_from, search_loop}
use general_tools.Directory.Deliver.{effect_of, announcement_lem}
use general_tools.Directory.Departure.{removal_lem, exit_lem}
use general_tools.Directory.Search.{search_ends}
use general_tools.Directory.Query.{Grouping, queries-Grouping}

abbrev node : Directory
unfolding init TopicStore.init
node = init (codes "n1") (codes "10.0.0.1") (codes "u") 5000

abbrev far : Text
far = codes "n2_10.0.0.2_v"

abbrev endpoint : Text
endpoint = codes "tcp://10.0.0.2:5000"

abbrev everywhere : Text → Bool
everywhere ip = true

abbrev types_out : OrderedSet
types_out = codes "Pose" ∷ codes "Twist" ∷ []

-- `on_network` for the network 10.0.0.0/8, with addresses in network order on a little-endian host.
abbrev near : Text → Bool
near ip = on_network (if text_eq ip (codes "10.0.0.2") then 33554442 else 0) 255 10

near_runs : (near (codes "10.0.0.2") ≡ true) × (near (codes "192.168.0.2") ≡ false)
unfolding on_network text_eq
near_runs = (refl, refl)

port_runs : (take_server_port node).0 ≡ 5000
unfolding take_server_port node init
port_runs = refl

node-far : text_eq far node.my_guid ≡ false
unfolding node init text_eq
node-far = refl

types_out-SortedSet : SortedSet types_out
unfolding text_ltb
types_out-SortedSet = ((refl, tt), (tt, tt))

announcement_lem_example :
    event everywhere node 12 false (
      datagram far discovery_available
        (build_topic_info (codes "odometry") 1 endpoint [] types_out))
    ≡ effect_of (add node 12 (codes "odometry") 1 endpoint [] types_out far)
unfolding from_type write_types datagram build_topic_info
announcement_lem_example =
    announcement_lem everywhere node 12 far (codes "odometry") 1 endpoint [] types_out node-far refl
      refl (omega arith) refl tt refl (cc) types_out-SortedSet refl (cc) refl refl (omega arith)

-- The node knows a topic of the far one.
abbrev told : Directory
told = record node {
  topics = record node.topics { network_topics = (codes "odometry", (far, theirs) ∷ []) ∷ [] };
}
  where
    theirs : DirectoryTopic
    theirs = record {
      name = codes "odometry";
      timestamp = 12;
      socket_type = 1;
      address = endpoint;
      input_types = [];
      output_types = types_out;
      guid = far;
      info = codes "odometry PUB";
    }

removal_lem_example :
    (d' : Directory) × (event everywhere told 12 false
        (datagram far discovery_remove (codes "odometry"))
      ≡ ok (
        d',
        map calls (
              if is_some (registered told.topics (codes "odometry") far)
              then told_of told.topics.observers
                  (codes "odometry")
                  (advertisers d'.topics (codes "odometry"))
              else [])
            ++ (start_query_timer told).1,
      ))
    × (registered d'.topics (codes "odometry") far ≡ (
        if text_eq (codes "odometry") (codes "odometry") && text_eq far far
        then none
        else registered told.topics (codes "odometry") far))
    × (d'.timer_active ≡ true)
unfolding datagram
removal_lem_example =
    removal_lem everywhere told 12 far (codes "odometry") (codes "odometry") far node-far refl refl
      refl (omega arith)

exit_lem_example :
    (d' : Directory) × (event everywhere told 12 false (datagram far discovery_exit [])
      ≡ ok (d', map calls (TopicStore.evict told.topics far).1 ++ (start_query_timer told).1))
    × (registered d'.topics (codes "odometry") far
        ≡ (if text_eq far far then none else registered told.topics (codes "odometry") far))
    × (d'.topics.local_topics ≡ told.topics.local_topics)
    × (d'.timer_active ≡ true)
unfolding datagram
exit_lem_example =
    exit_lem everywhere told 12 far (codes "odometry") far node-far refl refl (omega arith) (tt, tt)

abbrev owner : Directory
owner = record node { topics = record node.topics { local_topics = (codes "odometry", own) ∷ [] } }
  where
    own : DirectoryTopic
    own = record {
      name = codes "odometry";
      timestamp = 12;
      socket_type = 1;
      address = endpoint;
      input_types = [];
      output_types = types_out;
      guid = node.my_guid;
      info = codes "odometry PUB";
    }

abbrev search : Text
search = codes "S odometry other" ++ 0 ∷ []

search_runs :
    (discovery_search_from everywhere owner search 2).1
    ≡ sends (datagram node.my_guid discovery_available (codes "odometry PUB")) ∷ []
unfolding discovery_search_from node init TopicStore.init next_token text_eq lookup until_nul
search_runs = refl

search_ends_example :
    discovery_search_from everywhere owner search 2
    ≡ (owner, search_loop everywhere 1500 owner search 2 0)
search_ends_example = search_ends everywhere owner search 2 1500 (omega arith) (omega arith)

abbrev five : List Text
five = codes "a" ∷ codes "b" ∷ codes "c" ∷ codes "d" ∷ codes "e" ∷ []

queries_run : length (queries far five) ≡ 2
unfolding queries datagram
queries_run = refl

queries-Grouping_example : Grouping (datagram far discovery_search []) five (queries far five)
queries-Grouping_example = queries-Grouping far five

abbrev asking : Directory
unfolding node init observe TopicStore.init TopicStore.observe TopicStore.emplace
asking = (observe node (codes "odometry") 4 (codes "u1")).1.0

asking-interval : asking.interval ≤ query_interval_max
unfolding asking
asking-interval = omega arith

abbrev server : Address
server = make (codes "tcp") (codes "10.0.0.2") 5000

parse-address_example : parse (address server) ≡ make (codes "tcp") (codes "10.0.0.2") 5000
parse-address_example = parse-address server refl refl (omega arith)
