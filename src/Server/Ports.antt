-- ===== src/Server/Ports.antt =====
-- The life of a server of a topic.
use general_tools.Common.{
  ℕ, ◌+◌, ◌≡◌, ◌≢◌, ◌%◌, ◌⊎◌, inl, inr, refl, ap, sym, ◌∙◌, true, false, none, some, List, [], ◌∷◌,
  ◌++◌, map, Text, text_eq, text_eq_iff, subst, text_eq_refl, if◌then◌else◌, ◌==◌, Result, ok,
  is_ok, arith, Bool-cases,
}
use general_tools.Common.OrderedMap.{
  OrderedSet, lookup, contains, insert, erase, lookup-insert, lookup-erase,
}
use general_tools.Address.{Address, set_port, address}
use general_tools.TopicStore.{Call, DirectoryTopic, DirectoryTopicStore}
use general_tools.TopicStore
use general_tools.Wire.{discovery_available, discovery_remove, build_topic_info}
use general_tools.Directory.{
  Directory, Action, sends, calls, posts, cancels, waits, datagram, take_server_port,
}
use general_tools.Directory
use general_tools.Server.{Server, Started, bind, bind_port, init, destroy}

-- The datagrams among what a directory does.
abbrev pub datagrams : List Action → List Text
datagrams [] = []
datagrams (sends d ∷ actions) = d ∷ datagrams actions
datagrams (calls c ∷ actions) = datagrams actions
datagrams (posts name h ∷ actions) = datagrams actions
datagrams (cancels ∷ actions) = datagrams actions
datagrams (waits n ∷ actions) = datagrams actions

datagrams-calls :
    (called : List Call) (actions : List Action)
    → datagrams (map calls called ++ actions) ≡ datagrams actions
datagrams-calls [] actions = refl
datagrams-calls (c ∷ called) actions = datagrams-calls called actions

-- The bind succeeds at once, or for a port that the system chooses when that of the directory fails.
abbrev pub Binds : (Text → Result Text) → Address → ℕ → Text → Type 0
Binds zmq_bind a port endpoint =
    (zmq_bind (address (if port == 0 then a else set_port a port)) ≡ ok endpoint)
    ⊎ ((port ≢ 0)
        × (is_ok (zmq_bind (address (set_port a port))) ≡ false)
        × (zmq_bind (address (set_port a 0)) ≡ ok endpoint))

endpoint-eq : (endpoint a : Text) → (if text_eq endpoint a then a else endpoint) ≡ endpoint
endpoint-eq endpoint a = elim (Bool-cases (text_eq endpoint a)) [
  | inl e ↦ rw e (sym ((text_eq_iff endpoint a).0 e))
  | inr e ↦ rw e refl
]

bind_port-Binds :
    (zmq_bind : Text → Result Text) (s : Server) (a : Address) (port : ℕ) (endpoint : Text)
    → Binds zmq_bind a port endpoint
    → bind_port zmq_bind s a port ≡ ok (record s { address_text = endpoint })
unfolding bind_port bind
bind_port-Binds zmq_bind s a port endpoint (inl at_once) =
    ground
      (arith, at_once, endpoint-eq endpoint (address (if port == 0 then a else set_port a port)))
bind_port-Binds zmq_bind s a port endpoint (inr (given, fails, retry)) =
    ground (arith, given, fails, retry, endpoint-eq endpoint (address (set_port a 0)))

-- The entry that the server has in the directory.
abbrev pub entry : Directory → ℕ → ℕ → Text → OrderedSet → OrderedSet → Text → DirectoryTopic
entry d now type name ins outs endpoint = record {
  name = name;
  timestamp = now;
  socket_type = type;
  address = endpoint;
  input_types = ins;
  output_types = outs;
  guid = d.my_guid;
  info = build_topic_info name type endpoint ins outs;
}

store-add :
    (s : DirectoryTopicStore) (t : DirectoryTopic)
    → s.my_guid ≡ t.guid
    → contains t.name s.local_topics ≡ false
    → (s' : DirectoryTopicStore) × (called : List Call) × (TopicStore.add s t
        ≡ ok (true, s', called))
      × (s'.my_guid ≡ t.guid)
      × (lookup t.name s'.local_topics ≡ some t)
unfolding TopicStore.add
store-add s t mine free =
    let net = TopicStore.add_network s t in
    (
      record s { local_topics = insert t.name t s.local_topics; network_topics = net.0 },
      net.1,
      ground (arith, mine, free, text_eq_refl t.guid),
      mine,
      ground (arith, lookup-insert t.name t.name t s.local_topics, text_eq_refl t.name),
    )

directory-add :
    (d : Directory) (now type : ℕ) (name : Text) (ins outs : OrderedSet) (endpoint : Text)
    → d.topics.my_guid ≡ d.my_guid
    → contains name d.topics.local_topics ≡ false
    → (d' : Directory) × (actions : List Action) × (Directory.add d now name type endpoint ins outs
          d.my_guid
        ≡ ok (true, (d', actions)))
      × (d'.my_guid ≡ d.my_guid)
      × (d'.topics.my_guid ≡ d.my_guid)
      × (lookup name d'.topics.local_topics ≡ some (entry d now type name ins outs endpoint))
      × (datagrams actions
          ≡ datagram d.my_guid discovery_available (build_topic_info name type endpoint ins outs)
            ∷ [])
unfolding Directory.add
directory-add d now type name ins outs endpoint mine free =
    let t = entry d now type name ins outs endpoint in
    let (s', called, added, guid, found) = store-add d.topics t mine free in
    let told = sends (datagram d.my_guid discovery_available t.info) ∷ [] in
    (
      record d { topics = s' },
      map calls called ++ told,
      ground (arith, added),
      refl,
      guid,
      found,
      datagrams-calls called told,
    )

store-remove :
    (s : DirectoryTopicStore) (guid name : Text)
    → s.my_guid ≡ guid
    → contains name s.local_topics ≡ true
    → (s' : DirectoryTopicStore) × (called : List Call) × (TopicStore.remove s guid name
        ≡ (true, s', called))
      × (lookup name s'.local_topics ≡ none)
unfolding TopicStore.remove
store-remove s guid name mine here =
    let net = TopicStore.remove_network s guid name in
    (
      record s { local_topics = erase name s.local_topics; network_topics = net.0 },
      net.1,
      ground (arith, mine, here, text_eq_refl guid),
      ground (arith, lookup-erase name name s.local_topics, text_eq_refl name),
    )

directory-remove :
    (d : Directory) (name : Text)
    → d.topics.my_guid ≡ d.my_guid
    → contains name d.topics.local_topics ≡ true
    → (lookup name (Directory.remove d name).0.topics.local_topics ≡ none)
      × (datagrams (Directory.remove d name).1 ≡ datagram d.my_guid discovery_remove name ∷ [])
unfolding Directory.remove
directory-remove d name mine here =
    let (s', called, removed, gone) = store-remove d.topics d.my_guid name mine here in
    let told = sends (datagram d.my_guid discovery_remove name) ∷ [] in
    rw removed (gone, datagrams-calls called told)

init-started :
    (zmq_bind : Text → Result Text) (d d1 d2 : Directory) (actions : List Action) (now type : ℕ)
    (name : Text) (ins outs : OrderedSet) (a : Address) (port : ℕ) (endpoint : Text)
    → take_server_port d ≡ (port, d1)
    → bind_port zmq_bind
        (record { topic_name = name; address_text = []; in_directory = false })
        a
        port
      ≡ ok (record { topic_name = name; address_text = endpoint; in_directory = false })
    → Directory.add d1 now name type endpoint ins outs d1.my_guid ≡ ok (true, (d2, actions))
    → (init zmq_bind d now type name ins outs a).1
      ≡ ok (record {
        server = record { topic_name = name; address_text = endpoint; in_directory = true };
        directory = d2;
        actions = actions;
      })
unfolding init
init-started zmq_bind d d1 d2 actions now type name ins outs a port endpoint taken bound added =
    ground (arith, taken, bound, added)

taken-none : (d : Directory) → (d.next_server_port == 0) ≡ true → take_server_port d ≡ (0, d)
unfolding take_server_port
taken-none d e = ground (arith, e)

taken-port :
    (d : Directory)
    → (d.next_server_port == 0) ≡ false
    → take_server_port d
      ≡ (d.next_server_port, record d { next_server_port = (d.next_server_port + 1) % 65536 })
unfolding take_server_port
taken-port d e = ground (arith, e)

lifecycle_from :
    (zmq_bind : Text → Result Text) (d d1 : Directory) (now type : ℕ) (name : Text)
    (ins outs : OrderedSet) (a : Address) (port : ℕ) (endpoint : Text)
    → take_server_port d ≡ (port, d1)
    → d1.topics.my_guid ≡ d1.my_guid
    → contains name d1.topics.local_topics ≡ false
    → Binds zmq_bind a port endpoint
    → (r : Started) × ((init zmq_bind d now type name ins outs a).1 ≡ ok r)
      × (lookup name r.directory.topics.local_topics
          ≡ some (entry d1 now type name ins outs endpoint))
      × (datagrams r.actions
          ≡ datagram d1.my_guid discovery_available (build_topic_info name type endpoint ins outs)
            ∷ [])
      × (lookup name (destroy r.server r.directory).0.topics.local_topics ≡ none)
      × (datagrams (destroy r.server r.directory).1
          ≡ datagram d1.my_guid discovery_remove name ∷ [])
unfolding destroy
lifecycle_from zmq_bind d d1 now type name ins outs a port endpoint taken mine free binds =
    let s : Server = record { topic_name = name; address_text = []; in_directory = false } in
    let bound = bind_port-Binds zmq_bind s a port endpoint binds in
    let (d2, actions, added, guid, store_guid, found, told) =
      directory-add d1 now type name ins outs endpoint mine free in
    let gone = directory-remove d2 name (store_guid ∙ sym guid) (ground (arith, found)) in
    (
      record {
        server = record { topic_name = name; address_text = endpoint; in_directory = true };
        directory = d2;
        actions = actions;
      },
      init-started zmq_bind d d1 d2 actions now type name ins outs a port endpoint taken bound
          added,
      found,
      told,
      gone.0,
      gone.1 ∙ ap (λ g. datagram g discovery_remove name ∷ []) guid,
    )

-- The life of a server whose name is not taken on its node: when zmq binds it, at the port that the
-- directory hands out or, if that fails, at one that the system chooses, the constructor registers it
-- with the endpoint that it is bound to and announces just that; the destructor takes the topic out
-- again and announces that it is gone. The store of the directory has the directory's own guid.
pub server_lifecycle :
    (zmq_bind : Text → Result Text) (d : Directory) (now type : ℕ) (name : Text)
    (ins outs : OrderedSet) (a : Address) (endpoint : Text)
    → d.topics.my_guid ≡ d.my_guid
    → contains name d.topics.local_topics ≡ false
    → Binds zmq_bind a (take_server_port d).0 endpoint
    → (r : Started) × ((init zmq_bind d now type name ins outs a).1 ≡ ok r)
      × (lookup name r.directory.topics.local_topics
          ≡ some (entry d now type name ins outs endpoint))
      × (datagrams r.actions
          ≡ datagram d.my_guid discovery_available (build_topic_info name type endpoint ins outs)
            ∷ [])
      × (lookup name (destroy r.server r.directory).0.topics.local_topics ≡ none)
      × (datagrams (destroy r.server r.directory).1 ≡ datagram d.my_guid discovery_remove name ∷ [])
server_lifecycle zmq_bind d now type name ins outs a endpoint mine free binds =
    elim (Bool-cases (d.next_server_port == 0)) [
      | inl none_left ↦
          let taken : take_server_port d ≡ (0, d) = taken-none d none_left in
          lifecycle_from zmq_bind d d now type name ins outs a 0 endpoint taken mine free
            (subst (λ p. Binds zmq_bind a p.0 endpoint) taken binds)
      | inr port ↦
          let d1 = record d { next_server_port = (d.next_server_port + 1) % 65536 } in
          let taken : take_server_port d ≡ (d.next_server_port, d1) = taken-port d port in
          lifecycle_from zmq_bind d d1 now type name ins outs a d.next_server_port endpoint taken
            mine free (subst (λ p. Binds zmq_bind a p.0 endpoint) taken binds)
    ]
