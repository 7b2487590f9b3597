-- ===== src/Directory/Departure.antt =====
-- What a `remove` or an exit of another node does, and a datagram that a node sent itself.
use general_tools.Common.{
  ℕ, ◌+◌, ◌<◌, ◌≡◌, refl, sym, Bool, true, false, [], ◌∷◌, ◌++◌, map, Text, text_eq, text_eq_refl,
  if◌then◌else◌, length, is_empty, is_some, is_print, ap, ◌∙◌, ◌&&◌, none, all, ok, arith,
  append_assoc,
}
use general_tools.TopicStore
use general_tools.Common.OrderedMap.{IsSorted}
use general_tools.TopicStore.Observers.{told_of}
use general_tools.TopicStore.Registry.{registered, remove_unregisters, evict_unregisters}
use general_tools.TopicStore.Notify.{advertisers, remove_notifies}
use general_tools.Wire.{event_buffer_size, dispatch, space, discovery_exit, discovery_remove}
use general_tools.Wire.Tokens.{c_str-at, next_token-nul}
use general_tools.Directory.{Directory, calls, datagram, start_query_timer}
use general_tools.Directory.Announce.{is_name, past}
use general_tools.Directory.Receive.{
  discovery_remove_from, discovery_exit_from, dispatch_event, handle_event, event,
}
use general_tools.Directory.Envelope.{
  own-ignored, delivered, delivered-bare, datagram-args, length-front,
}
use general_tools.Directory.Deliver.{length-datagram, event-printable}

-- The handler of a `remove`.
removal_handled :
    (on_network : Text → Bool) (d : Directory) (now : ℕ) (sender name : Text)
    → text_eq sender d.my_guid ≡ false
    → is_name sender ≡ true
    → is_name name ≡ true
    → length sender + 11 < event_buffer_size
    → length name < event_buffer_size
    → let (removed, store, called) = TopicStore.remove d.topics sender name in
      let (d', actions) = start_query_timer (record d { topics = store }) in
      handle_event on_network d now (datagram sender discovery_remove name ++ 0 ∷ [])
      ≡ ok (d', map calls called ++ actions)
unfolding dispatch_event discovery_remove_from
removal_handled on_network d now sender name other sender-is name-is fits fits' =
    rw
      (
        datagram-args sender discovery_remove name (ground arith),
        delivered on_network d now sender sender-is fits other discovery_remove refl name,
      )
      (ground (
        arith,
        next_token-nul front name [] (9 + length sender + 1 + 2) 0
            (omega (arith, length-front sender discovery_remove)) (ground arith) (omega arith),
        c_str-at front name [] (9 + length sender + 1 + 2)
            (sym (length-front sender discovery_remove)) (ground arith),
      ))
  where
    front : Text
    front = past (past dispatch sender) (discovery_remove ∷ [])

-- The handler of an exit.
exit_handled :
    (on_network : Text → Bool) (d : Directory) (now : ℕ) (sender : Text)
    → text_eq sender d.my_guid ≡ false
    → is_name sender ≡ true
    → length sender + 11 < event_buffer_size
    → let (store, called) = TopicStore.evict d.topics sender in
      let (d', actions) = start_query_timer (record d { topics = store }) in
      handle_event on_network d now (datagram sender discovery_exit [] ++ 0 ∷ [])
      ≡ ok (d', map calls called ++ actions)
unfolding dispatch_event discovery_exit_from datagram
exit_handled on_network d now sender other sender-is fits =
    let bare = delivered-bare on_network d now sender sender-is fits other discovery_exit refl in
    simp append_assoc bare

-- A `remove` of a topic that another node sends takes exactly that node's entry of the topic out of
-- the store, whatever topic and guid one looks up afterwards; if there was one, each observer of the
-- topic and then each observer of all topics is called, with what is left of the topic's advertisers,
-- and else nobody; and the query timer is started. Conditions: the sender's guid is not this node's;
-- guid and name are not empty and hold no space or NUL; every byte of the datagram is printable; and the
-- datagram with its NUL fits the buffer of 1500 bytes.
pub removal_lem :
    (on_network : Text → Bool) (d : Directory) (now : ℕ) (sender name : Text) (topic guid : Text)
    → text_eq sender d.my_guid ≡ false
    → is_name sender ≡ true
    → is_name name ≡ true
    → all is_print (datagram sender discovery_remove name) ≡ true
    → length (datagram sender discovery_remove name) < event_buffer_size
    → (d' : Directory) × (event on_network d now false (datagram sender discovery_remove name)
        ≡ ok (
          d',
          map calls (
                if is_some (registered d.topics name sender)
                then told_of d.topics.observers name (advertisers d'.topics name)
                else [])
              ++ (start_query_timer d).1,
        ))
      × (registered d'.topics topic guid ≡ (
          if text_eq name topic && text_eq sender guid
          then none
          else registered d.topics topic guid))
      × (d'.timer_active ≡ true)
removal_lem on_network d now sender name topic guid other sender-is name-is printable fits =
    let (removed, store, called) = TopicStore.remove d.topics sender name in
    (
      (start_query_timer (record d { topics = store })).0,
      event-printable on_network d now (datagram sender discovery_remove name) printable
          ∙ removal_handled on_network d now sender name other sender-is name-is
              (ground (arith, length-datagram sender discovery_remove name, fits))
              (ground (arith, length-datagram sender discovery_remove name, fits))
          ∙ ap
              (λ c. ok (
                (start_query_timer (record d { topics = store })).0,
                map calls c ++ (start_query_timer d).1,
              ))
              (remove_notifies d.topics sender name),
      (remove_unregisters d.topics sender name topic guid).0,
      refl,
    )

-- The exit that another node sends takes all its entries out of the store, and no others, whatever
-- topic and guid one looks up afterwards; the topics of this node stay; it makes the calls of `evict`;
-- and the query timer is started. Conditions: the sender's guid is not this node's, not empty, and holds
-- no space or NUL; every byte of the datagram is printable; the datagram with its NUL fits the buffer of
-- 1500 bytes; and the network map is in the order of its keys, as a `std::map` is.
pub exit_lem :
    (on_network : Text → Bool) (d : Directory) (now : ℕ) (sender topic guid : Text)
    → text_eq sender d.my_guid ≡ false
    → is_name sender ≡ true
    → all is_print (datagram sender discovery_exit []) ≡ true
    → length (datagram sender discovery_exit []) < event_buffer_size
    → IsSorted d.topics.network_topics
    → (d' : Directory) × (event on_network d now false (datagram sender discovery_exit [])
        ≡ ok (d', map calls (TopicStore.evict d.topics sender).1 ++ (start_query_timer d).1))
      × (registered d'.topics topic guid
          ≡ (if text_eq sender guid then none else registered d.topics topic guid))
      × (d'.topics.local_topics ≡ d.topics.local_topics)
      × (d'.timer_active ≡ true)
exit_lem on_network d now sender topic guid other sender-is printable fits sorted =
    let gone = evict_unregisters d.topics sender topic guid sorted in
    (
      (start_query_timer (record d { topics = (TopicStore.evict d.topics sender).0 })).0,
      event-printable on_network d now (datagram sender discovery_exit []) printable
          ∙ exit_handled on_network d now sender other sender-is
              (omega (arith, length-datagram sender discovery_exit [], fits)),
      gone.0,
      gone.1,
      refl,
    )

-- A node ignores all that it sent itself, and that comes back by the multicast loopback.
pub own_datagram_ignored :
    (on_network : Text → Bool) (d : Directory) (now command : ℕ) (args : Text)
    → is_name d.my_guid ≡ true
    → length d.my_guid + 11 < event_buffer_size
    → handle_event on_network d now (datagram d.my_guid command args ++ 0 ∷ []) ≡ ok (d, [])
unfolding datagram
own_datagram_ignored on_network d now command args is fits =
    let own =
      own-ignored on_network d now d.my_guid is fits
        (command ∷ ((if is_empty args then [] else space ∷ args) ++ 0 ∷ []))
        (text_eq_refl d.my_guid) in
    simp append_assoc own
