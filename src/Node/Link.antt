-- ===== src/Node/Link.antt =====
-- A publisher at one node and a subscriber at another, from the announcement to the connection.
mod Tests
use general_tools.Common.{
  Bool, ℕ, ◌+◌, ◌<◌, ◌≡◌, ◌≢◌, refl, sym, ap, ◌∙◌, true, false, none, some, List, [], ◌∷◌, ◌++◌,
  map, Text, text_eq, if◌then◌else◌, length, is_print, all, Result, ok, arith, text_eq_refl, subst,
  get_or, append_assoc, append-nil, Bool-cases, inl, inr,
}
use general_tools.Common.OrderedMap.{lookup, contains, insert, member}
use general_tools.Address
use general_tools.SocketTypes.{from_type}
use general_tools.TopicStore.{
  DirectoryTopic, DirectoryTopicStore, DirectoryObserver, Call, GuidTopicMap, add_network,
  call_observers, calls_for,
}
use general_tools.TopicStore
use general_tools.TopicStore.Observers.{call_of}
use general_tools.Wire.{
  discovery_available, build_topic_info, no_types, event_buffer_size, write_types,
}
use general_tools.Directory.{Directory, Action, calls, datagram, take_server_port}
use general_tools.Directory
use general_tools.Wire.Types.{is_type_name}
use general_tools.Directory.Announce.{is_name}
use general_tools.Directory.Receive.{event}
use general_tools.Directory.Deliver.{announcement_lem, effect_of}
use general_tools.Server.{Started}
use general_tools.Server.Ports.{Binds, datagrams, entry, server_lifecycle}
use general_tools.Client
use general_tools.Client.{Client, on_directory_topics_changed, done, addresses_of}
use general_tools.Client.Changes.{connections, changed-addresses}
use general_tools.Node.Factories.{zmq_pub, default_address, register_publisher}

calls_for-append :
    (key : Text) (xs ys : List DirectoryObserver) (name : Text) (topics : GuidTopicMap)
    → calls_for key (xs ++ ys) name topics
      ≡ calls_for key xs name topics ++ calls_for key ys name topics
unfolding calls_for
calls_for-append key [] ys name topics = refl
calls_for-append key (x ∷ xs) ys name topics =
    let ih = calls_for-append key xs ys name topics in
    elim (Bool-cases (text_eq x.topic_name key)) [
      | inl e ↦ rw (e, ih) refl
      | inr e ↦ rw (e, ih) refl
    ]

call_observers-split :
    (pre post : List DirectoryObserver) (o : DirectoryObserver) (name : Text)
    (topics : GuidTopicMap)
    → o.topic_name ≡ name
    → (before : List Call) × (later : List Call) × (call_observers (pre ++ o ∷ post) name topics
        ≡ before ++ call_of o name topics ∷ later)
unfolding call_observers calls_for
call_observers-split pre post o name topics e =
    let before = calls_for name pre name topics in
    let rest = calls_for name post name topics in
    let all_topics = calls_for [] (pre ++ o ∷ post) name topics in
    (
      before,
      rest ++ all_topics,
      ap (λ l. l ++ all_topics)
            (calls_for-append name pre (o ∷ post) name topics ∙ rw (e, text_eq_refl name) refl)
          ∙ append_assoc before (call_of o name topics ∷ rest) all_topics,
    )

add_network-unknown :
    (s : DirectoryTopicStore) (t : DirectoryTopic)
    → lookup t.name s.network_topics ≡ none
    → add_network s t ≡ (
      insert t.name ((t.guid, t) ∷ []) s.network_topics,
      call_observers s.observers t.name ((t.guid, t) ∷ []),
    )
unfolding add_network
add_network-unknown s t unknown = ground (arith, unknown)

store-add_unknown :
    (s : DirectoryTopicStore) (t : DirectoryTopic)
    → text_eq t.guid s.my_guid ≡ false
    → lookup t.name s.network_topics ≡ none
    → TopicStore.add s t
      ≡ ok (
        false,
        record s { network_topics = insert t.name ((t.guid, t) ∷ []) s.network_topics },
        call_observers s.observers t.name ((t.guid, t) ∷ []),
      )
unfolding TopicStore.add
store-add_unknown s t other unknown = ground (arith, other, add_network-unknown s t unknown)

map-split :
    (before later : List Call) (c : Call)
    → map calls (before ++ c ∷ later) ≡ map calls before ++ calls c ∷ map calls later
map-split [] later c = refl
map-split (b ∷ before) later c = ap (◌∷◌ (calls b)) (map-split before later c)

-- A topic that nobody advertised, and that another node announces.
first_announcement :
    (d : Directory) (now type : ℕ) (name endpoint sender : Text) (outs : List Text)
    (pre post : List DirectoryObserver) (o : DirectoryObserver)
    → text_eq sender d.topics.my_guid ≡ false
    → lookup name d.topics.network_topics ≡ none
    → d.topics.observers ≡ pre ++ o ∷ post
    → o.topic_name ≡ name
    → (d' : Directory) × (topics : GuidTopicMap) × (before : List Action) × (later : List Action)
      × (effect_of (Directory.add d now name type endpoint [] outs sender)
          ≡ ok (d', before ++ calls (call_of o name topics) ∷ later))
      × (addresses_of topics ≡ endpoint ∷ [])
unfolding Directory.add addresses_of
first_announcement d now type name endpoint sender outs pre post o other unknown watched e =
    let t : DirectoryTopic = record {
      name = name;
      timestamp = now;
      socket_type = type;
      address = endpoint;
      input_types = [];
      output_types = outs;
      guid = sender;
      info = build_topic_info name type endpoint [] outs;
    } in
    let topics : GuidTopicMap = (sender, t) ∷ [] in
    let (before, later, split) = call_observers-split pre post o name topics e in
    (
      record d {
        topics = record d.topics { network_topics = insert name topics d.topics.network_topics };
      },
      topics,
      map calls before,
      map calls later,
      ground (
        arith,
        store-add_unknown d.topics t other unknown,
        watched,
        split,
        map-split before later (call_of o name topics),
        append-nil (map calls before ++ calls (call_of o name topics) ∷ map calls later),
      ),
      refl,
    )

-- A subscriber without connections, told of topics with one address, connects to it.
connects_to :
    (refuses : Text → Bool) (c : Client) (topics : GuidTopicMap) (endpoint : Text)
    → ((a : Text) → refuses a ≡ false)
    → c.addresses ≡ []
    → addresses_of topics ≡ endpoint ∷ []
    → (c' : Client) × (actions : List Client.Action) × (on_directory_topics_changed refuses c topics
        ≡ done (c', actions))
      × (member endpoint c'.addresses ≡ true)
      × (connections endpoint actions ≡ 1)
unfolding member
connects_to refuses c topics endpoint accepts fresh one =
    let (c', actions, result, members, connected) =
      changed-addresses refuses c topics endpoint accepts (rw fresh refl) in
    let found : member endpoint (addresses_of topics) ≡ true =
      rw (one, text_eq_refl endpoint) refl in
    (c', actions, result, members ∙ found, connected ∙ rw (found, fresh) refl)

-- A publisher that a node registers makes one datagram. Another node with an observer of the topic, on
-- which nobody advertised it before, takes the datagram in and calls the observer, among its other
-- calls, with topics that a subscriber without connections connects to: once, to the endpoint of the
-- publisher. Conditions: the publisher's node has no topic of the name and binds the endpoint; each
-- directory has one guid, and they differ; guid, name and endpoint are not empty and hold no space or
-- NUL; the type is a type name and not "."; the endpoint is on the other node's network; every
-- byte of the datagram is printable, and with its NUL it fits the buffer of 1500 bytes; and zmq refuses
-- no connection.
pub publisher_found :
    (zmq_bind : Text → Result Text) (own interface : Text) (there : Directory) (now : ℕ)
    (name type endpoint : Text) (on_network : Text → Bool) (here : Directory) (later : ℕ)
    (pre post : List DirectoryObserver) (o : DirectoryObserver) (refuses : Text → Bool) (c : Client)
    → there.topics.my_guid ≡ there.my_guid
    → contains name there.topics.local_topics ≡ false
    → Binds zmq_bind (default_address own interface) (take_server_port there).0 endpoint
    → text_eq there.my_guid here.my_guid ≡ false
    → here.topics.my_guid ≡ here.my_guid
    → is_name there.my_guid ≡ true
    → is_name name ≡ true
    → is_name endpoint ≡ true
    → is_type_name type ≡ true
    → type ≢ no_types
    → on_network (Address.parse endpoint).ip ≡ true
    → all is_print (
        datagram there.my_guid discovery_available
          (build_topic_info name zmq_pub endpoint [] (type ∷ [])))
      ≡ true
    → length (
        datagram there.my_guid discovery_available
          (build_topic_info name zmq_pub endpoint [] (type ∷ [])))
      < event_buffer_size
    → lookup name here.topics.network_topics ≡ none
    → here.topics.observers ≡ pre ++ o ∷ post
    → o.topic_name ≡ name
    → ((a : Text) → refuses a ≡ false)
    → c.addresses ≡ []
    → (r : Started) × (g : Text) × (here' : Directory) × (topics : GuidTopicMap) × (before : List
        Action)
      × (after : List Action) × (c' : Client) × (actions : List Client.Action)
      × ((register_publisher zmq_bind own interface there now name type).1 ≡ ok r)
      × (datagrams r.actions ≡ g ∷ [])
      × (event on_network here later false g
          ≡ ok (here', before ++ calls (call_of o name topics) ∷ after))
      × (on_directory_topics_changed refuses c topics ≡ done (c', actions))
      × (member endpoint c'.addresses ≡ true)
      × (connections endpoint actions ≡ 1)
unfolding register_publisher
publisher_found zmq_bind own interface there now name type endpoint on_network here later pre post o
      refuses c guid free binds other guid' sender-is name-is endpoint-is type-is dot near printable
      fits unknown watched of_topic accepts fresh =
    let a = default_address own interface in
    let (r, started, _, told, _, _) =
      server_lifecycle zmq_bind there now zmq_pub name [] (type ∷ []) a endpoint guid free binds in
    let (here', topics, before, after, added, one) =
      first_announcement here later zmq_pub name endpoint there.my_guid (type ∷ []) pre post o
        (subst (λ g. text_eq there.my_guid g ≡ false) (sym guid') other) unknown watched of_topic in
    let (c', actions, result, members, connected) =
      connects_to refuses c topics endpoint accepts fresh one in
    (
      r,
      datagram there.my_guid discovery_available
          (build_topic_info name zmq_pub endpoint [] (type ∷ [])),
      here',
      topics,
      before,
      after,
      c',
      actions,
      started,
      told,
      announcement_lem on_network here later there.my_guid name zmq_pub endpoint [] (type ∷ [])
            other sender-is name-is (omega arith) endpoint-is tt refl (cc) (tt, tt)
            (rw type-is refl) (λ e. dot (ap (λ l. get_or l 0 []) e)) near printable fits
          ∙ added,
      result,
      members,
      connected,
    )
