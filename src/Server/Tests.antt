-- ===== src/Server/Tests.antt =====
-- A server whose port is in use.
use general_tools.Common.{
  ◌≡◌, refl, [], ◌∷◌, false, Text, codes, none, some, ok, throws, Result, if◌then◌else◌, inr, arith,
  text_eq,
}
use general_tools.Common.OrderedMap.{lookup}
use general_tools.Address.{Address, address}
use general_tools.Directory.{Directory, datagram, take_server_port}
use general_tools.Common.Decimal.{to_string}
use general_tools.Directory
use general_tools.TopicStore
use general_tools.Wire.{discovery_available, discovery_remove, build_topic_info}
use general_tools.Server.{Started, init, destroy, unbind}
use general_tools.Server.Ports.{datagrams, entry, server_lifecycle}

abbrev node : Directory
unfolding Directory.init TopicStore.init
node = Directory.init (codes "n") (codes "a") (codes "u") 6000

abbrev anywhere : Address
anywhere = record { protocol = codes "tcp"; ip = codes "10.0.0.1"; port = 0; interface = [] }

-- zmq binds the address with the port 0 only.
abbrev busy : Text → Result Text
unfolding address
busy a =
    if text_eq a (address anywhere)
    then ok (codes "tcp://10.0.0.1:49152")
    else throws (codes "in use")

unbind_runs :
    unbind (record { topic_name = []; address_text = codes "x"; in_directory = false })
    ≡ some (codes "x")
unfolding unbind
unbind_runs = refl

server_lifecycle_example :
    (r : Started) × ((init busy node 5 1 (codes "t") [] [] anywhere).1 ≡ ok r)
    × (lookup (codes "t") r.directory.topics.local_topics
        ≡ some (entry node 5 1 (codes "t") [] [] (codes "tcp://10.0.0.1:49152")))
    × (datagrams r.actions
        ≡ datagram node.my_guid discovery_available
            (build_topic_info (codes "t") 1 (codes "tcp://10.0.0.1:49152") [] [])
          ∷ [])
    × (lookup (codes "t") (destroy r.server r.directory).0.topics.local_topics ≡ none)
    × (datagrams (destroy r.server r.directory).1
        ≡ datagram node.my_guid discovery_remove (codes "t") ∷ [])
unfolding node busy lookup take_server_port address text_eq to_string
server_lifecycle_example =
    server_lifecycle busy node 5 1 (codes "t") [] [] anywhere (codes "tcp://10.0.0.1:49152") refl
      refl (inr (omega arith, refl, refl))
