-- ===== src/Client/Tests.antt =====
-- A client of a topic that gets a second server, and of one that loses its server.
use general_tools.Common.{
  ◌↔◌, all, ◌≡◌, refl, [], ◌∷◌, true, false, Bool, List, Text, codes, text_eq, throws,
}
use general_tools.Common.OrderedMap.{member}
use general_tools.TopicStore.{DirectoryTopic, GuidTopicMap}
use general_tools.Client.{
  Client, Action, done, undefined, on_directory_topics_changed, addresses_of, init_addresses,
  disconnect, disconnects, notifies,
}
use general_tools.Client.Changes.{connections, changed-addresses, changed-gone}

abbrev client : Client
client = record {
  addresses = codes "a" ∷ [];
  on_connect = 2;
  on_disconnect = 3;
  topic_name = codes "t";
  monitor_ref = [];
  in_directory = true;
}

abbrev topic_at : Text → DirectoryTopic
topic_at address = record {
  name = codes "t";
  timestamp = 0;
  socket_type = 1;
  address = address;
  input_types = [];
  output_types = [];
  guid = [];
  info = [];
}

abbrev both : GuidTopicMap
both = (codes "g", topic_at (codes "a")) ∷ (codes "h", topic_at (codes "b")) ∷ []

abbrev accepts : Text → Bool
accepts a = false

init_runs : init_addresses accepts [] ≡ throws (codes "No addresses to connect to")
unfolding init_addresses
init_runs = refl

disconnect_runs :
    (disconnect client (codes "a")).1 ≡ disconnects (codes "a") ∷ notifies 3 (codes "t") ∷ []
unfolding disconnect member text_eq
disconnect_runs = refl

changed-addresses_example :
    (c' : Client) × (actions : List Action) × (on_directory_topics_changed accepts client both
      ≡ done (c', actions))
    × (member (codes "b") c'.addresses ≡ true)
    × (connections (codes "b") actions ≡ 1)
unfolding addresses_of member text_eq
changed-addresses_example = changed-addresses accepts client both (codes "b") (λ a. refl) refl

changed-gone_example :
    (on_directory_topics_changed accepts client [] ≡ undefined)
    ↔ (all (λ a. member a (addresses_of [])) client.addresses ≡ false)
changed-gone_example = changed-gone accepts client [] (λ a. refl)
