-- ===== src/TopicStore/Observers.antt =====
-- Whom a change of a topic calls: `callObservers` of a17/dispatch/directory.cpp.
use general_tools.Common.{
  ◌≡◌, refl, sym, ap, List, [], ◌∷◌, ◌++◌, Text, text_eq, if◌then◌else◌, Bool-cases, inl, inr, map,
}
use general_tools.TopicStore.{GuidTopicMap, DirectoryObserver, Call, calls_for, call_observers}

-- The observers of a key, in order.
abbrev pub observing : Text → List DirectoryObserver → List DirectoryObserver
observing key [] = []
observing key (o ∷ os) =
    let rest = observing key os in if text_eq o.topic_name key then o ∷ rest else rest

-- The call of an observer with the topic's name and its guid map.
abbrev pub call_of : DirectoryObserver → Text → GuidTopicMap → Call
call_of o name topics = record { handler = o.handler; topic_name = name; guid_topic_map = topics }

-- One call for each observer of the topic, then one for each observer of all topics, whose key is empty.
abbrev pub told_of : List DirectoryObserver → Text → GuidTopicMap → List Call
told_of os name topics = map (λ o. call_of o name topics) (observing name os ++ observing [] os)

pub calls_for-observing :
    (key : Text) (os : List DirectoryObserver) (name : Text) (topics : GuidTopicMap)
    → calls_for key os name topics ≡ map (λ o. call_of o name topics) (observing key os)
unfolding calls_for
calls_for-observing key [] name topics = refl
calls_for-observing key (o ∷ os) name topics = elim (Bool-cases (text_eq o.topic_name key)) [
  | inl e ↦ rw e (ap (◌∷◌ (call_of o name topics)) (calls_for-observing key os name topics))
  | inr e ↦ rw e (calls_for-observing key os name topics)
]

map-++ :
    (f : DirectoryObserver → Call) (xs ys : List DirectoryObserver)
    → map f (xs ++ ys) ≡ map f xs ++ map f ys
map-++ f [] ys = refl
map-++ f (x ∷ xs) ys = ap (◌∷◌ (f x)) (map-++ f xs ys)

pub call_observers-told_of :
    (os : List DirectoryObserver) (name : Text) (topics : GuidTopicMap)
    → call_observers os name topics ≡ told_of os name topics
unfolding call_observers
call_observers-told_of os name topics =
    rw (calls_for-observing name os name topics, calls_for-observing [] os name topics)
      (sym (map-++ (λ o. call_of o name topics) (observing name os) (observing [] os)))
