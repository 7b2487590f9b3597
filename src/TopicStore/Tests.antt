-- ===== src/TopicStore/Tests.antt =====
-- A store with one observer and one topic of a peer, and the theorems at it.
use general_tools.Common.{
  ◌≡◌, ◌↔◌, refl, true, false, ◌&&◌, none, some, List, [], ◌∷◌, codes, Text, text_eq, if◌then◌else◌,
  ok,
}
use general_tools.Common.OrderedMap.{lookup, contains, insert}
use general_tools.TopicStore.{
  DirectoryTopic, DirectoryTopicStore, Call, init, observe, add, remove, evict, find_local,
  call_observers, add_network, calls_for, emplace, topic_ne, has_topic, size, local_size,
  call_immediate,
}
use general_tools.TopicStore.Observers.{told_of}
use general_tools.TopicStore.Registry.{
  registered, refreshed, add_registers, remove_unregisters, evict_unregisters,
}
use general_tools.TopicStore.Notify.{IsValid, advertisers, same_address, add_notifies}

abbrev me : Text
me = codes "me"

abbrev peer : Text
peer = codes "peer"

abbrev odometry : Text
odometry = codes "odometry"

abbrev watched : DirectoryTopicStore
unfolding init observe
watched = (observe (init me) odometry 4 (codes "u1")).1

abbrev topic_at : Text → Text → DirectoryTopic
topic_at guid address = record {
  name = odometry;
  timestamp = 10;
  socket_type = 1;
  address = address;
  input_types = [];
  output_types = codes "Pose" ∷ [];
  guid = guid;
  info = [];
}

abbrev theirs : DirectoryTopic
theirs = topic_at peer (codes "tcp://10.0.0.2:5000")

abbrev known : DirectoryTopicStore
known = record {
  my_guid = me;
  local_topics = [];
  network_topics = (odometry, (peer, theirs) ∷ []) ∷ [];
  observers = watched.observers;
}

abbrev told : List Call
told = record { handler = 4; topic_name = odometry; guid_topic_map = (peer, theirs) ∷ [] } ∷ []

add_runs : add watched theirs ≡ ok (false, known, told)
unfolding add add_network watched init observe insert call_observers calls_for text_eq emplace
    lookup
add_runs = refl

known-IsValid : IsValid known
known-IsValid = record { sorted = (tt, tt); none_empty = (refl, tt); local_sorted = tt }

watched-IsValid : IsValid watched
unfolding watched init observe
watched-IsValid = record { sorted = tt; none_empty = tt; local_sorted = tt }

queries_run :
    (has_topic known odometry ≡ true)
    × (size known ≡ 1)
    × (local_size known ≡ 0)
    × (call_immediate known odometry 4 ≡ told)
    × (topic_ne theirs (topic_at me []) ≡ true)
unfolding has_topic call_immediate topic_ne lookup text_eq
queries_run = (refl, refl, refl, refl, refl)

add_registers_example :
    (registered known odometry peer ≡ (
      if text_eq odometry odometry && text_eq peer peer
      then some (refreshed (registered watched odometry peer) theirs)
      else registered watched odometry peer))
    × (find_local known odometry
        ≡ (if false && text_eq odometry odometry then some theirs else find_local watched odometry))
    × (false ≡ text_eq peer watched.my_guid)
add_registers_example = add_registers watched theirs add_runs odometry peer

remove_unregisters_example :
    let (removed_mine, s', calls) = remove known peer odometry in
    (registered s' odometry peer ≡ (
      if text_eq odometry odometry && text_eq peer peer
      then none
      else registered known odometry peer))
    × (find_local s' odometry ≡ (
        if text_eq peer me && text_eq odometry odometry then none else find_local known odometry))
    × ((removed_mine ≡ true)
        ↔ ((text_eq peer me ≡ true) × (contains odometry known.local_topics ≡ true)))
remove_unregisters_example = remove_unregisters known peer odometry odometry peer

evict_unregisters_example :
    let (s', calls) = evict known peer in
    (registered s' odometry peer
      ≡ (if text_eq peer peer then none else registered known odometry peer))
    × (s'.local_topics ≡ known.local_topics)
evict_unregisters_example = evict_unregisters known peer odometry peer (tt, tt)

add_notifies_example : told ≡ (
    if same_address (registered watched odometry peer) theirs
    then []
    else told_of watched.observers odometry (advertisers known odometry))
add_notifies_example = add_notifies watched theirs add_runs
