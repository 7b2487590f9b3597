-- ===== src/TopicStore.antt =====
-- `DirectoryTopic` (a17/dispatch/directory_topic.h) and `DirectoryTopicStore` (class in
-- a17/dispatch/directory.h, code in directory.cpp): the topics that a node knows, and who is told of
-- changes. A handler is named by a number, and a call of it is a value in the result of the
-- operation that makes it; the program's own handlers do not call back into the store. The uuid that
-- `observe` generates is an argument.
pub mod Registry
pub mod Observers
pub mod Notify
mod Tests
use general_tools.Common.{
  ℕ, Bool, true, false, ◌&&◌, Option, none, some, List, [], ◌∷◌, ◌++◌, Text, codes, text_eq,
  text_ltb, if◌then◌else◌, is_empty, is_some, length, Result, ok, throws, ◌==◌, not,
}
use general_tools.Common.OrderedMap.{
  OrderedMap, OrderedSet, lookup, contains, insert, erase, add as add_key,
}

pub record DirectoryTopic : Type 0 where
  pub name : Text
  pub timestamp : ℕ
  pub socket_type : ℕ
  pub address : Text
  pub input_types : OrderedSet
  pub output_types : OrderedSet
  pub guid : Text
  pub info : Text

unfoldable pub keys_eq : OrderedSet → OrderedSet → Bool
keys_eq [] [] = true
keys_eq [] (y ∷ ys) = false
keys_eq (x ∷ xs) [] = false
keys_eq (x ∷ xs) (y ∷ ys) = text_eq x y && keys_eq xs ys

-- `operator==` and `operator!=`.
unfoldable pub topic_eq : DirectoryTopic → DirectoryTopic → Bool
unfolding keys_eq
topic_eq a b =
    text_eq a.name b.name
    && (a.timestamp == b.timestamp
        && (a.socket_type == b.socket_type
            && (text_eq a.address b.address
                && (keys_eq a.input_types b.input_types
                    && (keys_eq a.output_types b.output_types
                        && (text_eq a.guid b.guid && text_eq a.info b.info))))))

unfoldable pub topic_ne : DirectoryTopic → DirectoryTopic → Bool
unfolding topic_eq
topic_ne a b = not (topic_eq a b)

abbrev pub GuidTopicMap : Type 0
GuidTopicMap = OrderedMap DirectoryTopic

-- An entry of the multimap `observers`: its key and its value.
pub record DirectoryObserver : Type 0 where
  pub topic_name : Text
  pub handler : ℕ
  pub ref : Text

-- `handler(topic_name, guid_topic_map)`.
pub record Call : Type 0 where
  pub handler : ℕ
  pub topic_name : Text
  pub guid_topic_map : GuidTopicMap

pub record DirectoryTopicStore : Type 0 where
  pub my_guid : Text
  pub local_topics : OrderedMap DirectoryTopic
  pub network_topics : OrderedMap GuidTopicMap
  pub observers : List DirectoryObserver

unfoldable pub init : Text → DirectoryTopicStore
init guid = record { my_guid = guid; local_topics = []; network_topics = []; observers = [] }

-- The calls for the observers of one key, in the order of the multimap.
unfoldable pub calls_for : Text → List DirectoryObserver → Text → GuidTopicMap → List Call
calls_for key [] name topics = []
calls_for key (o ∷ os) name topics =
    if text_eq o.topic_name key
    then record { handler = o.handler; topic_name = name; guid_topic_map = topics }
      ∷ calls_for key os name topics
    else calls_for key os name topics

-- The observers of this topic, then those of all topics.
unfoldable pub call_observers : List DirectoryObserver → Text → GuidTopicMap → List Call
unfolding calls_for
call_observers os name topics = calls_for name os name topics ++ calls_for [] os name topics

-- The network part of `add`: the new map and the calls.
unfoldable pub add_network :
    DirectoryTopicStore → DirectoryTopic → OrderedMap GuidTopicMap × List Call
unfolding call_observers
add_network s t = elim (lookup t.name s.network_topics) [
  | none ↦ tell ((t.guid, t) ∷ [])
  | some topics ↦ elim (lookup t.guid topics) [
    | none ↦ tell (insert t.guid t topics)
    | some old ↦
        if text_eq old.address t.address
        then (s.network_topics, [])
        else tell (insert t.guid t topics)
  ]
]
  where
    tell : GuidTopicMap → OrderedMap GuidTopicMap × List Call
    tell topics = (insert t.name topics s.network_topics, call_observers s.observers t.name topics)

unfoldable pub add :
    DirectoryTopicStore → DirectoryTopic → Result (Bool × DirectoryTopicStore × List Call)
unfolding add_network
add s t =
    if added_mine && contains t.name s.local_topics
    then throws (codes "Duplicate topic: " ++ t.name)
    else ok (added_mine, record s { local_topics = local; network_topics = net.0 }, net.1)
  where
    added_mine : Bool
    added_mine = text_eq t.guid s.my_guid

    local : OrderedMap DirectoryTopic
    local = if added_mine then insert t.name t s.local_topics else s.local_topics

    net : OrderedMap GuidTopicMap × List Call
    net = add_network s t

-- What `remove` and `evict` do to the entry of one topic: its new map and the calls.
unfoldable pub drop_guid :
    List DirectoryObserver → Text → Text → GuidTopicMap → GuidTopicMap × List Call
unfolding call_observers
drop_guid os guid name topics =
    let left = erase guid topics in
    (left, if contains guid topics then call_observers os name left else [])

unfoldable pub remove_network :
    DirectoryTopicStore → Text → Text → OrderedMap GuidTopicMap × List Call
unfolding drop_guid
remove_network s guid name = elim (lookup name s.network_topics) [
  | none ↦ (s.network_topics, [])
  | some topics ↦
      let (left, calls) = drop_guid s.observers guid name topics in
      (
        if is_empty left then erase name s.network_topics else insert name left s.network_topics,
        calls,
      )
]

unfoldable pub remove : DirectoryTopicStore → Text → Text → Bool × DirectoryTopicStore × List Call
unfolding remove_network
remove s guid name = (
  mine && contains name s.local_topics,
  record s {
    local_topics = if mine then erase name s.local_topics else s.local_topics;
    network_topics = net.0;
  },
  net.1,
)
  where
    mine : Bool
    mine = text_eq guid s.my_guid

    net : OrderedMap GuidTopicMap × List Call
    net = remove_network s guid name

-- The loop of `evict` over the topics.
unfoldable pub evict_all :
    List DirectoryObserver → Text → OrderedMap GuidTopicMap → OrderedMap GuidTopicMap × List Call
unfolding drop_guid
evict_all os guid [] = ([], [])
evict_all os guid ((name, topics) ∷ net) =
    let (left, calls) = drop_guid os guid name topics in
    let (net', calls') = evict_all os guid net in
    (if is_empty left then net' else (name, left) ∷ net', calls ++ calls')

unfoldable pub evict : DirectoryTopicStore → Text → DirectoryTopicStore × List Call
unfolding evict_all
evict s guid =
    let (net, calls) = evict_all s.observers guid s.network_topics in
    (record s { network_topics = net }, calls)

-- `multimap::emplace`: behind all entries whose key is not greater.
unfoldable pub emplace : DirectoryObserver → List DirectoryObserver → List DirectoryObserver
emplace o [] = o ∷ []
emplace o (p ∷ ps) = if text_ltb o.topic_name p.topic_name then o ∷ p ∷ ps else p ∷ emplace o ps

unfoldable pub observe : DirectoryTopicStore → Text → ℕ → Text → Text × DirectoryTopicStore
unfolding emplace
observe s name handler uuid = (uuid, record s { observers = emplace observer s.observers })
  where
    observer : DirectoryObserver
    observer = record { topic_name = name; handler = handler; ref = uuid }

unfoldable pub call_immediate : DirectoryTopicStore → Text → ℕ → List Call
call_immediate s name handler = elim (lookup name s.network_topics) [
  | none ↦ []
  | some topics ↦ record { handler = handler; topic_name = name; guid_topic_map = topics } ∷ []
]

unfoldable pub drop_observer : Text → Text → List DirectoryObserver → List DirectoryObserver
drop_observer name ref [] = []
drop_observer name ref (o ∷ os) =
    if text_eq o.topic_name name && text_eq o.ref ref
    then drop_observer name ref os
    else o ∷ drop_observer name ref os

unfoldable pub unobserve : DirectoryTopicStore → Text → Text → DirectoryTopicStore
unfolding drop_observer
unobserve s name ref = record s { observers = drop_observer name ref s.observers }

unfoldable pub missing_from :
    OrderedMap GuidTopicMap → List DirectoryObserver → OrderedSet → OrderedSet
missing_from net [] topics = topics
missing_from net (o ∷ os) topics =
    missing_from net os (if contains o.topic_name net then topics else add_key o.topic_name topics)

unfoldable pub get_missing : DirectoryTopicStore → OrderedSet
unfolding missing_from
get_missing s = missing_from s.network_topics s.observers []

unfoldable pub has_topic : DirectoryTopicStore → Text → Bool
has_topic s name = contains name s.network_topics

abbrev pub size : DirectoryTopicStore → ℕ
size s = length s.network_topics

abbrev pub local_size : DirectoryTopicStore → ℕ
local_size s = length s.local_topics

abbrev pub find_local : DirectoryTopicStore → Text → Option DirectoryTopic
find_local s name = lookup name s.local_topics
