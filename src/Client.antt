-- ===== src/Client.antt =====
-- `Client` (a17/dispatch/client.h and client.cpp): a socket that is connected to the servers of a
-- topic. The socket itself is part of the result of each operation, as what is asked of it and of the
-- connection handlers (numbers, 0 for the empty `std::function`). For which addresses the `connect` of
-- zmq throws is the parameter `refuses`; the client is not followed further then. Logging is left out.
pub mod Changes
mod Tests
use general_tools.Common.{
  ℕ, zero, suc, ◌+◌, Bool, true, false, ◌&&◌, not, Option, none, some, List, [], ◌∷◌, ◌++◌, map,
  any, all, Text, codes, text_eq, if◌then◌else◌, ◌==◌, is_empty, leb, length, Result, ok, throws,
}
use general_tools.Common.OrderedMap.{OrderedSet, member, add as add_key, remove as remove_key}
use general_tools.TopicStore.{GuidTopicMap, DirectoryTopic}
use general_tools.Directory.{Directory}
use general_tools.Directory

pub record Client : Type 0 where
  pub addresses : OrderedSet
  pub on_connect : ℕ
  pub on_disconnect : ℕ
  pub topic_name : Text
  pub monitor_ref : Text
  pub in_directory : Bool

pub data Action : Type 0 where
  connects : Text → Action
  disconnects : Text → Action
  notifies : ℕ → Text → Action

abbrev pub Effect : Type 0
Effect = Client × List Action

-- What becomes of the handler of changes: it may throw, and its behaviour may be undefined.
pub data Outcome : Type 0 where
  done : Effect → Outcome
  throws_error : Text → Outcome
  undefined : Outcome

abbrev pub unconnected : Text → ℕ → ℕ → Client
unconnected name connected disconnected = record {
  addresses = [];
  on_connect = connected;
  on_disconnect = disconnected;
  topic_name = name;
  monitor_ref = [];
  in_directory = false;
}

abbrev pub notify : ℕ → Text → List Action
notify handler name = if handler == 0 then [] else notifies handler name ∷ []

-- The constructor for a topic of a directory; `handler` is the number under which the directory
-- knows `onDirectoryTopicsChanged`.
unfoldable pub init :
    Directory → Text → ℕ → ℕ → ℕ → Text → Client × Directory × List Directory.Action
init directory name connected disconnected handler uuid =
    let (ref, (directory', actions)) = Directory.observe directory name handler uuid in
    (
      record (unconnected name connected disconnected) { monitor_ref = ref; in_directory = true },
      directory',
      actions,
    )

-- The destructor.
unfoldable pub destroy : Client → Directory → Directory × List Directory.Action
destroy c directory =
    if c.in_directory
    then Directory.unobserve directory c.topic_name c.monitor_ref
    else (directory, [])

unfoldable pub disconnect : Client → Text → Effect
disconnect c address =
    if member address c.addresses
    then (
      record c { addresses = remove_key address c.addresses },
      disconnects address ∷ notify c.on_disconnect c.topic_name,
    )
    else (c, [])

abbrev pub is_connected : Client → ℕ → Bool
is_connected c count = leb count (length c.addresses)

unfoldable pub set_connection_handlers : Client → ℕ → ℕ → Client
set_connection_handlers c connected disconnected = record c {
  on_connect = connected;
  on_disconnect = disconnected;
}

-- The addresses of the topics, in the order of the map.
unfoldable pub addresses_of : GuidTopicMap → List Text
addresses_of [] = []
addresses_of ((guid, topic) ∷ topics) = topic.address ∷ addresses_of topics

abbrev pub actions_before : List Action → Outcome → Outcome
actions_before actions (done (c, later)) = done (c, actions ++ later)
actions_before actions (throws_error e) = throws_error e
actions_before actions undefined = undefined

-- The loop of `onDirectoryTopicsChanged` that disconnects, over the rest of the set: its body, and then
-- the step to the next address. If the body has erased the address that the loop stands on, the step has
-- no defined behaviour.
unfoldable pub disconnect_gone : Client → List Text → List Text → Outcome
unfolding disconnect
disconnect_gone c new_addresses [] = done (c, [])
disconnect_gone c new_addresses (a ∷ rest) =
    let (c', actions) = if member a new_addresses then (c, []) else disconnect c a in
    let outcome = disconnect_gone c' new_addresses rest in
    if member a c'.addresses then actions_before actions outcome else undefined

module _ (refuses : Text → Bool) where
  unfoldable pub connect : Client → Text → Result Effect
  connect c address =
      if member address c.addresses
      then ok (c, [])
      else if refuses address
      then throws (codes "cannot connect to " ++ address)
      else ok (
        record c { addresses = add_key address c.addresses },
        connects address ∷ notify c.on_connect c.topic_name,
      )

  -- A loop of `connect`, as in the constructor for a set of addresses.
  unfoldable pub connect_each : Client → List Text → Result Effect
  unfolding connect
  connect_each c [] = ok (c, [])
  connect_each c (a ∷ addresses) = elim (connect c a) [
    | throws e ↦ throws e
    | ok (c', actions) ↦ elim (connect_each c' addresses) [
      | throws e ↦ throws e
      | ok (c'', later) ↦ ok (c'', actions ++ later)
    ]
  ]

  -- The constructor for an address, which may be empty.
  unfoldable pub init_address : Text → Result Effect
  unfolding connect
  init_address address =
      let c = unconnected [] 0 0 in if is_empty address then ok (c, []) else connect c address

  -- The constructor for a set of addresses.
  unfoldable pub init_addresses : OrderedSet → Result Effect
  unfolding connect_each
  init_addresses addresses =
      if is_empty addresses
      then throws (codes "No addresses to connect to")
      else connect_each (unconnected [] 0 0) addresses

  -- The loop of `onDirectoryTopicsChanged` that connects.
  unfoldable pub connect_new : Client → List Text → Result Effect
  unfolding connect
  connect_new c [] = ok (c, [])
  connect_new c (a ∷ addresses) = elim (if member a c.addresses then ok (c, []) else connect c a) [
    | throws e ↦ throws e
    | ok (c', actions) ↦ elim (connect_new c' addresses) [
      | throws e ↦ throws e
      | ok (c'', later) ↦ ok (c'', actions ++ later)
    ]
  ]

  -- `onDirectoryTopicsChanged`: the loop that connects, and then the one that disconnects.
  unfoldable pub on_directory_topics_changed : Client → GuidTopicMap → Outcome
  unfolding addresses_of connect_new disconnect_gone
  on_directory_topics_changed c topics =
      let new_addresses = addresses_of topics in
      elim (connect_new c new_addresses) [
        | throws e ↦ throws_error e
        | ok (c', actions) ↦ actions_before actions (disconnect_gone c' new_addresses c'.addresses)
      ]
