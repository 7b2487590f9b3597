-- ===== src/Node/Link/Tests.antt =====
-- Two nodes, and a subscriber of the second one to a topic of the first.
use general_tools.Common.{
  ◌≡◌, refl, Bool, true, false, List, [], ◌∷◌, ◌++◌, Text, codes, text_eq, Result, ok, inl, arith,
}
use general_tools.Common.Decimal.{to_string}
use general_tools.Common.OrderedMap.{lookup, member}
use general_tools.Address.{address}
use general_tools.SocketTypes.{from_type}
use general_tools.TopicStore
use general_tools.TopicStore.{DirectoryObserver, GuidTopicMap}
use general_tools.Wire.{write_types, build_topic_info}
use general_tools.Directory.{datagram, Directory, Action, calls, take_server_port}
use general_tools.Directory
use general_tools.Directory.Receive.{event}
use general_tools.Server.{Started}
use general_tools.Server.Ports.{datagrams}
use general_tools.Client
use general_tools.Client.{Client, unconnected, on_directory_topics_changed, done}
use general_tools.Client.Changes.{connections}
use general_tools.Node.Factories.{register_publisher}
use general_tools.TopicStore.Observers.{call_of}
use general_tools.Node.Link.{publisher_found}

abbrev there : Directory
unfolding Directory.init TopicStore.init
there = Directory.init (codes "n2") (codes "10.0.0.2") (codes "v") 5000

abbrev watcher : DirectoryObserver
watcher = record { topic_name = codes "pose"; handler = 3; ref = codes "r" }

abbrev empty_here : Directory
unfolding Directory.init TopicStore.init
empty_here = Directory.init (codes "n1") (codes "10.0.0.1") (codes "u") 5000

abbrev here : Directory
here = record empty_here { topics = record empty_here.topics { observers = watcher ∷ [] } }

abbrev endpoint : Text
endpoint = codes "tcp://10.0.0.2:5000"

abbrev binds : Text → Result Text
binds a = ok a

abbrev everywhere : Text → Bool
everywhere ip = true

abbrev never : Text → Bool
never a = false

abbrev subscriber : Client
subscriber = unconnected (codes "pose") 0 0

publisher_found_example :
    (r : Started) × (g : Text) × (here' : Directory) × (topics : GuidTopicMap) × (before : List
      Action)
    × (after : List Action) × (c' : Client) × (actions : List Client.Action) × ((register_publisher
          binds
          (codes "10.0.0.2")
          (codes "eth0")
          there
          5
          (codes "pose")
          (codes "Pose")).1
        ≡ ok r)
    × (datagrams r.actions ≡ g ∷ [])
    × (event everywhere here 7 false g
        ≡ ok (here', before ++ calls (call_of watcher (codes "pose") topics) ∷ after))
    × (on_directory_topics_changed never subscriber topics ≡ done (c', actions))
    × (member endpoint c'.addresses ≡ true)
    × (connections endpoint actions ≡ 1)
unfolding there empty_here Directory.init TopicStore.init lookup text_eq take_server_port address
    to_string from_type write_types datagram build_topic_info
publisher_found_example =
    publisher_found binds (codes "10.0.0.2") (codes "eth0") there 5 (codes "pose") (codes "Pose")
      endpoint everywhere here 7 [] [] watcher never subscriber refl refl (inl refl) refl refl refl
      refl refl refl (cc) refl refl (omega arith) refl refl refl (λ a. refl) refl
