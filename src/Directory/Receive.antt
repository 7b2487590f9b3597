-- ===== src/Directory/Receive.antt =====
-- The receiving half of `Directory`: `event`, `handleEvent` and the four `discovery` handlers.
use general_tools.Common.{
  ◌>>=◌, ℕ, zero, suc, ◌+◌, Bool, true, false, not, Option, none, some, List, [], ◌∷◌, ◌++◌, map,
  Text, codes, text_eq, is_print, if◌then◌else◌, ◌==◌, get_or, length, is_empty, all, Result, ok,
  throws,
}
use general_tools.Address
use general_tools.SocketTypes.{from_name}
use general_tools.TopicStore.{DirectoryTopic, find_local}
use general_tools.TopicStore
use general_tools.Wire.{
  dispatch, discovery_exit, discovery_available, discovery_remove, discovery_search, c_str,
  next_token, parse_types,
}
use general_tools.Directory.{
  Directory, Action, sends, calls, Effect, start_query_timer, datagram, add,
}

-- `next = nextToken(data, pos); if (next == pos) return;`
unfoldable pub token : List ℕ → ℕ → ℕ → Option (ℕ × List ℕ)
token buf event pos =
    let (next, buf') = next_token buf event pos in if next == pos then none else some (next, buf')

-- The same for a token that must not be empty.
unfoldable pub named_token : List ℕ → ℕ → ℕ → Option (ℕ × List ℕ)
unfolding token
named_token buf event pos = do
  (next, buf') ← token buf event pos
  if get_or buf' (event + pos) 0 == 0 then none else some (next, buf')

-- The offsets of type, address, inputs and outputs behind `data`, and the split buffer.
unfoldable pub fields : List ℕ → ℕ → Option (ℕ × ℕ × ℕ × ℕ × List ℕ)
fields buf event = do
  (type, buf1) ← named_token buf event 0
  (address, buf2) ← named_token buf1 event type
  (ins, buf3) ← named_token buf2 event address
  (outs, buf4) ← token buf3 event ins
  (end, buf5) ← token buf4 event outs
  some (type, address, ins, outs, buf5)

module _ (on_network : Text → Bool) where
  unfoldable pub discovery_available_from : Directory → ℕ → Text → List ℕ → ℕ → Result Effect
  discovery_available_from d now guid buf event = elim (fields buf event) [
    | none ↦ ok (d, [])
    | some (type, address, ins, outs, split) ↦
        let at = λ (i : ℕ). c_str split (event + i) in
        if not (on_network (Address.parse (at address)).ip)
        then ok (d, [])
        else elim (from_name (at type)) [
          | none ↦ ok (d, [])
          | some socket_type ↦
              elim (add d now (at 0) socket_type (at address) (parse_types (at ins))
                (parse_types (at outs)) guid) [
                  | throws e ↦ throws e
                  | ok (mine, effect) ↦ ok effect
                ]
        ]
  ]

  unfoldable pub discovery_remove_from : Directory → Text → List ℕ → ℕ → Effect
  discovery_remove_from d guid buf event =
      let (next, split) = next_token buf event 0 in
      let (removed, store, called) = TopicStore.remove d.topics guid (c_str split event) in
      let (d', actions) = start_query_timer (record d { topics = store }) in
      (d', map calls called ++ actions)

  unfoldable pub discovery_exit_from : Directory → Text → Effect
  discovery_exit_from d guid =
      let (store, called) = TopicStore.evict d.topics guid in
      let (d', actions) = start_query_timer (record d { topics = store }) in
      (d', map calls called ++ actions)

  -- The replies to one name of a search: all local topics for `*`, else the one of that name.
  unfoldable pub replies_for : Directory → Text → List Action
  replies_for d name =
      if is_empty name
      then []
      else if text_eq name (codes "*")
      then map (λ entry. reply entry.1) d.topics.local_topics
      else elim (find_local d.topics name) [ none ↦ [] | some topic ↦ reply topic ∷ [] ]
    where
      reply : DirectoryTopic → Action
      reply topic = sends (datagram d.my_guid discovery_available topic.info)

  -- The loop of `discoverySearch`; each round moves on by at least one byte of the buffer.
  unfoldable pub search_loop : ℕ → Directory → List ℕ → ℕ → ℕ → List Action
  unfolding replies_for
  search_loop zero d buf event pos = []
  search_loop (suc fuel) d buf event pos =
      let (next, split) = next_token buf event pos in
      let rest = search_loop fuel d split event next in
      if get_or buf (event + pos) 0 == 0
      then []
      else replies_for d (c_str split (event + pos)) ++ rest

  unfoldable pub discovery_search_from : Directory → List ℕ → ℕ → Effect
  unfolding search_loop
  discovery_search_from d buf event = (d, search_loop (length buf) d buf event 0)

  unfoldable pub dispatch_event : Directory → ℕ → Text → ℕ → List ℕ → ℕ → Result Effect
  unfolding discovery_available_from discovery_remove_from discovery_exit_from discovery_search_from
  dispatch_event d now guid command buf event =
      if command == discovery_available
      then discovery_available_from d now guid buf event
      else if command == discovery_search
      then ok (discovery_search_from d buf event)
      else if command == discovery_exit
      then ok (discovery_exit_from d guid)
      else if command == discovery_remove
      then ok (discovery_remove_from d guid buf event)
      else ok (d, [])

  unfoldable pub handle_event : Directory → ℕ → List ℕ → Result Effect
  handle_event d now event =
      if not (Address.starts_with dispatch event)
      then ok (d, [])
      else let (command, buf) = next_token event 0 (length dispatch) in
        let guid = c_str buf (length dispatch) in
        if text_eq guid d.my_guid
        then ok (d, [])
        else let (args, split) = next_token buf 0 command in
          dispatch_event d now guid (get_or split command 0) split args

  -- The handler of the socket: an error code, or the bytes received. It always receives again.
  unfoldable pub event : Directory → ℕ → Bool → List ℕ → Result Effect
  event d now true bytes = ok (d, [])
  event d now false bytes =
      if all is_print bytes then handle_event d now (bytes ++ 0 ∷ []) else ok (d, [])
