-- ===== src/TopicStore/Registry.antt =====
-- The store as a registry from a topic and a guid to what that node advertises.
use general_tools.Common.{
  ◌≡◌, refl, ◌↔◌, Bool, true, false, ◌&&◌, Option, none, some, List, [], ◌∷◌, arith, Text, text_eq,
  text_eq_iff, if◌then◌else◌, is_empty, is_ok, ok, throws, codes, ◌++◌, Option-cases, inl, inr,
}
use general_tools.Common.OrderedMap.{
  OrderedMap, lookup, contains, insert, erase, lookup-insert, lookup-erase, IsSorted, lookup-Above,
}
use general_tools.TopicStore.{
  DirectoryTopic, DirectoryTopicStore, GuidTopicMap, Call, add_network, add, remove_network, remove,
  evict_all, evict, find_local,
}

-- What `guid` advertises under `name`.
abbrev pub registered_in : OrderedMap GuidTopicMap → Text → Text → Option DirectoryTopic
registered_in net name guid = elim (lookup name net) [
  | none ↦ none
  | some topics ↦ lookup guid topics
]

abbrev pub registered : DirectoryTopicStore → Text → Text → Option DirectoryTopic
registered s name guid = registered_in s.network_topics name guid

-- What an announcement leaves registered where `old` was: an entry with the same address stays.
abbrev pub refreshed : Option DirectoryTopic → DirectoryTopic → DirectoryTopic
refreshed none t = t
refreshed (some old) t = if text_eq old.address t.address then old else t

registered_in-insert :
    (net : OrderedMap GuidTopicMap) (n : Text) (topics : GuidTopicMap) (name guid : Text)
    → registered_in (insert n topics net) name guid
      ≡ (if text_eq n name then lookup guid topics else registered_in net name guid)
registered_in-insert net n topics name guid = ground (arith, lookup-insert name n topics net)

registered_in-erase :
    (net : OrderedMap GuidTopicMap) (n name guid : Text)
    → registered_in (erase n net) name guid
      ≡ (if text_eq n name then none else registered_in net name guid)
registered_in-erase net n name guid = ground (arith, lookup-erase name n net)

lookup-nil :
    (guid : Text) (topics : GuidTopicMap) → is_empty topics ≡ true → lookup guid topics ≡ none
unfolding lookup
lookup-nil guid [] e = refl
lookup-nil guid (entry ∷ topics) e = cc

-- The effect of an announcement on the registry.
module _ (s : DirectoryTopicStore) (t : DirectoryTopic) (name guid : Text) where
  abbrev Announced : OrderedMap GuidTopicMap → Type 0
  Announced net = registered_in net name guid ≡ (
      if text_eq t.name name && text_eq t.guid guid
      then some (refreshed (registered s t.name t.guid) t)
      else registered s name guid)

  add_network-first : lookup t.name s.network_topics ≡ none → Announced (add_network s t).0
  unfolding add_network lookup
  add_network-first e = ground (
    arith,
    text_eq_iff t.name name,
    registered_in-insert s.network_topics t.name ((t.guid, t) ∷ []) name guid,
  )

  add_network-more :
      (topics : GuidTopicMap)
      → lookup t.name s.network_topics ≡ some topics
      → Announced (add_network s t).0
  unfolding add_network
  add_network-more topics e = ground (
    arith,
    text_eq_iff t.name name,
    text_eq_iff t.guid guid,
    registered_in-insert s.network_topics t.name (insert t.guid t topics) name guid,
    lookup-insert guid t.guid t topics,
  )

  add_network-registered : Announced (add_network s t).0
  add_network-registered = elim (Option-cases (lookup t.name s.network_topics)) [
    | inl e ↦ add_network-first e
    | inr (topics, e) ↦ add_network-more topics e
  ]

abbrev pub is_duplicate : DirectoryTopicStore → DirectoryTopic → Bool
is_duplicate s t = text_eq t.guid s.my_guid && contains t.name s.local_topics

-- `add` throws "Duplicate topic" exactly if the topic is the node's own and the node already has one
-- of that name, and returns in every other case.
pub add-throws_iff :
    (s : DirectoryTopicStore) (t : DirectoryTopic)
    → ((add s t ≡ throws (codes "Duplicate topic: " ++ t.name)) ↔ (is_duplicate s t ≡ true))
      × ((is_ok (add s t) ≡ true) ↔ (is_duplicate s t ≡ false))
unfolding add
add-throws_iff s t = ground arith

-- An `add` that returns registers the topic under its name and guid: there it replaces an entry with
-- another address, and keeps an entry with the same address as it is. All else in the network map
-- stays. The local map has the topic under its name if it is the node's own, and is the same
-- otherwise; the flag says which.
pub add_registers :
    (s : DirectoryTopicStore) (t : DirectoryTopic) {mine : Bool} {s' : DirectoryTopicStore}
    {calls : List Call}
    → add s t ≡ ok (mine, s', calls)
    → (name guid : Text)
    → (registered s' name guid ≡ (
        if text_eq t.name name && text_eq t.guid guid
        then some (refreshed (registered s t.name t.guid) t)
        else registered s name guid))
      × (find_local s' name ≡ (if mine && text_eq t.name name then some t else find_local s name))
      × (mine ≡ text_eq t.guid s.my_guid)
unfolding add
add_registers s t e name guid =
    ground (arith, add_network-registered s t name guid, lookup-insert name t.name t s.local_topics)

remove_network-registered :
    (s : DirectoryTopicStore) (from topic name guid : Text)
    → registered_in (remove_network s from topic).0 name guid
      ≡ (if text_eq topic name && text_eq from guid then none else registered s name guid)
unfolding remove_network
remove_network-registered s from topic name guid =
    elim (Option-cases (lookup topic s.network_topics)) [
      | inl e ↦ ground (arith, text_eq_iff topic name)
      | inr (topics, e) ↦ ground (
        arith,
        text_eq_iff topic name,
        registered_in-erase s.network_topics topic name guid,
        registered_in-insert s.network_topics topic (erase from topics) name guid,
        lookup-erase guid from topics,
        lookup-nil guid (erase from topics),
      )
    ]

-- `remove` takes exactly the entry of that guid and topic out of the network map, and if the guid is
-- the node's own the topic out of the local map; the flag tells whether the local map had it.
pub remove_unregisters :
    (s : DirectoryTopicStore) (from topic name guid : Text)
    → let (removed_mine, s', calls) = remove s from topic in
      (registered s' name guid
        ≡ (if text_eq topic name && text_eq from guid then none else registered s name guid))
      × (find_local s' name
          ≡ (if text_eq from s.my_guid && text_eq topic name then none else find_local s name))
      × ((removed_mine ≡ true)
          ↔ ((text_eq from s.my_guid ≡ true) × (contains topic s.local_topics ≡ true)))
unfolding remove
remove_unregisters s from topic name guid = (
  remove_network-registered s from topic name guid,
  ground (arith, lookup-erase name topic s.local_topics),
  ground arith,
)

evict_all-lookup :
    (s : DirectoryTopicStore) (from : Text) (net : OrderedMap GuidTopicMap) (name guid : Text)
    → IsSorted net
    → registered_in (evict_all s.observers from net).0 name guid
      ≡ (if text_eq from guid then none else registered_in net name guid)
unfolding evict_all lookup
evict_all-lookup s from [] name guid sorted = ground arith
evict_all-lookup s from ((n, topics) ∷ net) name guid sorted = ground (
  arith,
  text_eq_iff n name,
  lookup-erase guid from topics,
  lookup-nil guid (erase from topics),
  evict_all-lookup s from net name guid sorted.1,
  lookup-Above n net sorted.0,
)

-- `evict` takes out every entry of that guid, and only those. It never touches the local map.
pub evict_unregisters :
    (s : DirectoryTopicStore) (from name guid : Text)
    → IsSorted s.network_topics
    → let (s', calls) = evict s from in
      (registered s' name guid ≡ (if text_eq from guid then none else registered s name guid))
      × (s'.local_topics ≡ s.local_topics)
unfolding evict
evict_unregisters s from name guid sorted =
    (evict_all-lookup s from s.network_topics name guid sorted, refl)
