-- ===== src/TopicStore/Notify.antt =====
-- The shape of the store, who is called on a change, and what is missing.
use general_tools.Common.{
  ℕ, ◌≡◌, refl, Bool, true, false, ◌&&◌, not, Option, none, some, List, [], ◌∷◌, arith, Text,
  text_eq, text_eq_iff, text_eq_refl, if◌then◌else◌, is_empty, is_some, ok, Option-cases, inl, inr,
  ap, any,
}
use general_tools.Common.OrderedMap.{
  OrderedMap, OrderedSet, lookup, contains, insert, erase, member, add as add_key, member-add,
  lookup-insert, lookup-erase, IsSorted, Above, insert-IsSorted, erase-IsSorted,
}
use general_tools.TopicStore.{
  DirectoryTopic, DirectoryTopicStore, GuidTopicMap, DirectoryObserver, Call, add_network, add,
  remove_network, remove, evict_all, evict, emplace, drop_observer, observe, unobserve,
  missing_from, get_missing,
}
use general_tools.TopicStore.Observers.{told_of, call_observers-told_of}
use general_tools.TopicStore.Registry.{registered}

abbrev pub NoneEmpty : OrderedMap GuidTopicMap → Type 0
NoneEmpty [] = Unit {0}
NoneEmpty ((name, topics) ∷ net) = (is_empty topics ≡ false) × NoneEmpty net

-- The topics are in order, each once, and each has an advertiser.
pub record IsValid (s : DirectoryTopicStore) : Type 0 where
  pub sorted : IsSorted s.network_topics
  pub none_empty : NoneEmpty s.network_topics
  pub local_sorted : IsSorted s.local_topics

insert-NoneEmpty :
    (name : Text) (topics : GuidTopicMap) (net : OrderedMap GuidTopicMap)
    → is_empty topics ≡ false
    → NoneEmpty net
    → NoneEmpty (insert name topics net)
unfolding insert
insert-NoneEmpty name topics [] e h = (e, tt)
insert-NoneEmpty name topics ((n, ts) ∷ net) e h =
    ground (arith, insert-NoneEmpty name topics net e h.1)

erase-NoneEmpty :
    (name : Text) (net : OrderedMap GuidTopicMap) → NoneEmpty net → NoneEmpty (erase name net)
unfolding erase
erase-NoneEmpty name [] h = tt
erase-NoneEmpty name ((n, ts) ∷ net) h = ground (arith, erase-NoneEmpty name net h.1)

insert-nonempty :
    (guid : Text) (t : DirectoryTopic) (topics : GuidTopicMap)
    → is_empty (insert guid t topics) ≡ false
unfolding insert
insert-nonempty guid t [] = refl
insert-nonempty guid t ((g, u) ∷ topics) = ground arith

evict_all-Above :
    (n : Text) (os : List DirectoryObserver) (from : Text) (net : OrderedMap GuidTopicMap)
    → Above n net
    → Above n (evict_all os from net).0
unfolding evict_all
evict_all-Above n os from [] a = tt
evict_all-Above n os from ((k, ts) ∷ net) a = ground (arith, evict_all-Above n os from net a.1)

evict_all-valid :
    (os : List DirectoryObserver) (from : Text) (net : OrderedMap GuidTopicMap)
    → IsSorted net
    → IsSorted (evict_all os from net).0 × NoneEmpty (evict_all os from net).0
unfolding evict_all
evict_all-valid os from [] s = (tt, tt)
evict_all-valid os from ((k, ts) ∷ net) s =
    ground (arith, evict_all-Above k os from net s.0, evict_all-valid os from net s.1)

add_network-valid :
    {s : DirectoryTopicStore} (t : DirectoryTopic)
    → IsValid s
    → IsSorted (add_network s t).0 × NoneEmpty (add_network s t).0
unfolding add_network
add_network-valid {s} t v = elim (Option-cases (lookup t.name s.network_topics)) [
  | inl e ↦ ground (
    arith,
    insert-IsSorted t.name ((t.guid, t) ∷ []) s.network_topics,
    insert-NoneEmpty t.name ((t.guid, t) ∷ []) s.network_topics,
  )
  | inr (topics, e) ↦ ground (
    arith,
    insert-IsSorted t.name (insert t.guid t topics) s.network_topics,
    insert-nonempty t.guid t topics,
    insert-NoneEmpty t.name (insert t.guid t topics) s.network_topics,
  )
]

remove_network-valid :
    {s : DirectoryTopicStore} (from name : Text)
    → IsValid s
    → IsSorted (remove_network s from name).0 × NoneEmpty (remove_network s from name).0
unfolding remove_network
remove_network-valid {s} from name v = elim (Option-cases (lookup name s.network_topics)) [
  | inl e ↦ ground arith
  | inr (topics, e) ↦ ground (
    arith,
    insert-IsSorted name (erase from topics) s.network_topics,
    insert-NoneEmpty name (erase from topics) s.network_topics,
    erase-IsSorted name s.network_topics,
    erase-NoneEmpty name s.network_topics,
  )
]

-- `add` keeps a valid store valid whenever it returns.
pub add-IsValid :
    {s : DirectoryTopicStore} (t : DirectoryTopic) {mine : Bool} {s' : DirectoryTopicStore}
    {calls : List Call}
    → IsValid s
    → add s t ≡ ok (mine, s', calls)
    → IsValid s'
unfolding add
add-IsValid {s} t v e =
    ground (arith, add_network-valid t v, insert-IsSorted t.name t s.local_topics)

-- `remove` and `evict` keep a valid store valid; so a topic that has lost its last advertiser is gone.
pub remove-evict-IsValid :
    {s : DirectoryTopicStore} (from name : Text)
    → IsValid s
    → IsValid (remove s from name).1 × IsValid (evict s from).0
unfolding remove evict
remove-evict-IsValid {s} from name v = (
  ground (arith, remove_network-valid from name v, erase-IsSorted name s.local_topics),
  ground (arith, evict_all-valid s.observers from s.network_topics v.sorted),
)

-- The guid map of a topic, empty if there is none.
abbrev pub advertisers : DirectoryTopicStore → Text → GuidTopicMap
advertisers s name = elim (lookup name s.network_topics) [ none ↦ [] | some topics ↦ topics ]

abbrev pub same_address : Option DirectoryTopic → DirectoryTopic → Bool
same_address none t = false
same_address (some old) t = text_eq old.address t.address

-- `add` calls nobody if the guid already advertises the topic with the same address. Otherwise it
-- calls each observer of the topic, in order, and then each observer of all topics, with the name of the
-- topic and the guid map that the store then has for it.
pub add_notifies :
    (s : DirectoryTopicStore) (t : DirectoryTopic) {mine : Bool} {s' : DirectoryTopicStore}
    {calls : List Call}
    → add s t ≡ ok (mine, s', calls)
    → calls ≡ (
        if same_address (registered s t.name t.guid) t
        then []
        else told_of s.observers t.name (advertisers s' t.name))
unfolding add add_network lookup
add_notifies s t e = elim (Option-cases (lookup t.name s.network_topics)) [
  | inl missing ↦ ground (
    arith,
    text_eq_refl t.name,
    lookup-insert t.name t.name ((t.guid, t) ∷ []) s.network_topics,
    call_observers-told_of s.observers t.name ((t.guid, t) ∷ []),
  )
  | inr (topics, known) ↦ ground (
    arith,
    text_eq_refl t.name,
    lookup-insert t.name t.name (insert t.guid t topics) s.network_topics,
    call_observers-told_of s.observers t.name (insert t.guid t topics),
  )
]

-- `remove` calls the observers of the topic, then those of all topics, exactly if the guid advertised
-- the topic, with the guid map that the store then has for it.
pub remove_notifies :
    (s : DirectoryTopicStore) (from name : Text)
    → let (removed_mine, s', calls) = remove s from name in
      calls ≡ (
        if is_some (registered s name from)
        then told_of s.observers name (advertisers s' name)
        else [])
unfolding remove remove_network
remove_notifies s from name = elim (Option-cases (lookup name s.network_topics)) [
  | inl missing ↦ ground arith
  | inr (topics, known) ↦ ground (
    arith,
    text_eq_refl name,
    empty-eq (erase from topics),
    lookup-insert name name (erase from topics) s.network_topics,
    lookup-erase name name s.network_topics,
    call_observers-told_of s.observers name [],
    call_observers-told_of s.observers name (erase from topics),
  )
]
  where
    empty-eq : (topics : GuidTopicMap) → is_empty topics ≡ true → topics ≡ []
    empty-eq [] e = refl
    empty-eq (x ∷ topics) e = cc

missing_from-member :
    (net : OrderedMap GuidTopicMap) (os : List DirectoryObserver) (topics : OrderedSet)
    (name : Text)
    → member name (missing_from net os topics) ≡ (
        if any (λ o. text_eq o.topic_name name) os && not (contains name net)
        then true
        else member name topics)
unfolding missing_from
missing_from-member net [] topics name = refl
missing_from-member net (o ∷ os) topics name = ground (
  arith,
  text_eq_iff o.topic_name name,
  member-add name o.topic_name topics,
  missing_from-member net os
      (if contains o.topic_name net then topics else add_key o.topic_name topics) name,
)

-- `getMissing` is exactly the set of topics that somebody observes and nobody advertises. An observer
-- of all topics, whose key is the empty string, counts as one of a topic with that name.
pub get_missing-member :
    (s : DirectoryTopicStore) (name : Text)
    → member name (get_missing s)
      ≡ (any (λ o. text_eq o.topic_name name) s.observers && not (contains name s.network_topics))
unfolding get_missing member
get_missing-member s name = ground (arith, missing_from-member s.network_topics s.observers [] name)

drop-emplace :
    (o : DirectoryObserver) (os : List DirectoryObserver)
    → any (λ p. text_eq p.ref o.ref) os ≡ false
    → drop_observer o.topic_name o.ref (emplace o os) ≡ os
unfolding drop_observer emplace
drop-emplace o [] fresh = ground (arith, text_eq_refl o.topic_name, text_eq_refl o.ref)
drop-emplace o (p ∷ os) fresh = ground (
  arith,
  text_eq_refl o.topic_name,
  text_eq_refl o.ref,
  drop-emplace o os,
  drop-fresh o.topic_name o.ref os,
)
  where
    drop-fresh :
        (name ref : Text) (os : List DirectoryObserver)
        → any (λ p. text_eq p.ref ref) os ≡ false
        → drop_observer name ref os ≡ os
    drop-fresh name ref [] fresh = refl
    drop-fresh name ref (p ∷ os) fresh = ground (arith, drop-fresh name ref os)

-- `unobserve` with the reference that `observe` returned gives back the store from before, provided
-- that the generated reference was not in use.
pub unobserve-observe :
    (s : DirectoryTopicStore) (name : Text) (handler : ℕ) (uuid : Text)
    → any (λ o. text_eq o.ref uuid) s.observers ≡ false
    → let (ref, s') = observe s name handler uuid in unobserve s' name ref ≡ s
unfolding observe unobserve
unobserve-observe s name handler uuid fresh =
    ap (λ os. record s { observers = os })
      (drop-emplace (record { topic_name = name; handler = handler; ref = uuid }) s.observers fresh)
