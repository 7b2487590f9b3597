-- ===== src/Directory/Deliver.antt =====
-- The announcement, as `send` formats it, taken in by `event`.
use general_tools.Common.{
  ℕ, ◌+◌, ◌<◌, ◌≡◌, ◌≢◌, refl, Bool, true, false, [], ◌∷◌, ◌++◌, Text, text_eq, if◌then◌else◌,
  length, is_empty, is_print, length-append, ◌∙◌, all, Result, ok, throws, arith, append_assoc,
}
use general_tools.Common.OrderedMap.{OrderedSet}
use general_tools.Address
use general_tools.SocketTypes.{from_type, from_name-from_type, from_type-table}
use general_tools.Wire.{
  event_buffer_size, dispatch, space, discovery_available, write_types, build_topic_info, no_types,
}
use general_tools.Wire.Types.{SortedSet, is_type_name, parse_types-write_types, write_types-token}
use general_tools.Directory.{Directory, Effect, datagram, add}
use general_tools.Directory.Announce.{is_name, past, fields_lem, fields_read}
use general_tools.Directory.Receive.{discovery_available_from, dispatch_event, handle_event, event}
use general_tools.Directory.Envelope.{delivered, datagram-args, length-front}

pub length-datagram :
    (sender : Text) (c : ℕ) (args : Text)
    → length (datagram sender c args)
      ≡ 9 + length sender + 2 + (if is_empty args then 0 else length args + 1)
unfolding datagram
length-datagram sender c [] = ground (
  arith,
  length-append dispatch (sender ++ (space ∷ c ∷ [])),
  length-append sender (space ∷ c ∷ []),
)
length-datagram sender c (x ∷ args) = ground (
  arith,
  length-append dispatch (sender ++ (space ∷ c ∷ space ∷ x ∷ args)),
  length-append sender (space ∷ c ∷ space ∷ x ∷ args),
)

length-info :
    (name : Text) (type : ℕ) (address : Text) (ins outs : OrderedSet)
    → length (build_topic_info name type address ins outs)
      ≡ length name
        + length (from_type type)
        + length address
        + length (write_types ins)
        + length (write_types outs)
        + 4
unfolding build_topic_info
length-info name type address ins outs = omega (
  arith,
  length-append name (
      space
      ∷ (from_type type
          ++ (space ∷ (address ++ (space ∷ (write_types ins ++ (space ∷ write_types outs))))))),
  length-append (from_type type)
      (space ∷ (address ++ (space ∷ (write_types ins ++ (space ∷ write_types outs))))),
  length-append address (space ∷ (write_types ins ++ (space ∷ write_types outs))),
  length-append (write_types ins) (space ∷ write_types outs),
)

-- Printable bytes reach `handleEvent`.
pub event-printable :
    (on_network : Text → Bool) (d : Directory) (now : ℕ) (bytes : Text)
    → all is_print bytes ≡ true
    → event on_network d now false bytes ≡ handle_event on_network d now (bytes ++ 0 ∷ [])
unfolding event
event-printable on_network d now bytes e = ground (arith, e)

-- What `Directory::add` returns, without its flag.
abbrev pub effect_of : Result (Bool × Effect) → Result Effect
effect_of (throws e) = throws e
effect_of (ok (mine, effect)) = ok effect

write_types-name : (ts : OrderedSet) → all is_type_name ts ≡ true → is_name (write_types ts) ≡ true
write_types-name ts e = ground (arith, write_types-token ts e)

available-received :
    (on_network : Text → Bool) (d : Directory) (now : ℕ) (sender pre name : Text) (type : ℕ)
    (address : Text) (ins outs : OrderedSet) (event : ℕ)
    → length pre ≡ event
    → is_name name ≡ true
    → type < 12
    → is_name address ≡ true
    → SortedSet ins
    → all is_type_name ins ≡ true
    → ◌≢◌ {A = OrderedSet} ins (no_types ∷ [])
    → SortedSet outs
    → all is_type_name outs ≡ true
    → ◌≢◌ {A = OrderedSet} outs (no_types ∷ [])
    → on_network (Address.parse address).ip ≡ true
    → length name
        + length (from_type type)
        + length address
        + length (write_types ins)
        + length (write_types outs)
        + 4
      < event_buffer_size
    → discovery_available_from on_network d now sender
        (pre ++ (build_topic_info name type address ins outs ++ 0 ∷ []))
        event
      ≡ effect_of (add d now name type address ins outs sender)
unfolding discovery_available_from build_topic_info
available-received on_network d now sender pre name type address ins outs event at name-is type-lt
      address-is ins-sorted ins-is ins-dot outs-sorted outs-is outs-dot near fits =
    let type-is = from_type-table type type-lt in
    let ins-name = write_types-name ins ins-is in
    let outs-name = write_types-name outs outs-is in
    let split =
      fields_lem pre name (from_type type) address (write_types ins) (write_types outs) event at
        name-is type-is address-is ins-name outs-name fits in
    let reads =
      fields_read pre name (from_type type) address (write_types ins) (write_types outs) event at
        name-is type-is address-is ins-name outs-name fits in
    simp append_assoc (
      ground (
        arith,
        split,
        reads,
        near,
        from_name-from_type type type-lt,
        parse_types-write_types ins ins-sorted ins-is ins-dot,
        parse_types-write_types outs outs-sorted outs-is outs-dot,
      ))

-- An announcement that another node sends for a topic makes this node's `event` do exactly what `add`
-- does for that topic under the sender's guid: name, socket type, address and both sets of types
-- arrive as they were. Conditions: the sender's guid is not this node's; guid, name and address are not
-- empty and hold no space or NUL; the socket type is one of the twelve; the sets are ordered sets of
-- type names without space, NUL and separator, neither of them the set of the one name "."; the address
-- is on the node's network; every byte of the datagram is printable; and the datagram with its NUL fits
-- the buffer of 1500 bytes.
pub announcement_lem :
    (on_network : Text → Bool) (d : Directory) (now : ℕ) (sender name : Text) (type : ℕ)
    (address : Text) (ins outs : OrderedSet)
    → text_eq sender d.my_guid ≡ false
    → is_name sender ≡ true
    → is_name name ≡ true
    → type < 12
    → is_name address ≡ true
    → SortedSet ins
    → all is_type_name ins ≡ true
    → ◌≢◌ {A = OrderedSet} ins (no_types ∷ [])
    → SortedSet outs
    → all is_type_name outs ≡ true
    → ◌≢◌ {A = OrderedSet} outs (no_types ∷ [])
    → on_network (Address.parse address).ip ≡ true
    → all is_print
        (datagram sender discovery_available (build_topic_info name type address ins outs))
      ≡ true
    → length (datagram sender discovery_available (build_topic_info name type address ins outs))
      < event_buffer_size
    → event on_network d now false
        (datagram sender discovery_available (build_topic_info name type address ins outs))
      ≡ effect_of (add d now name type address ins outs sender)
announcement_lem on_network d now sender name type address ins outs other sender-is name-is type-lt
      address-is ins-sorted ins-is ins-dot outs-sorted outs-is outs-dot near printable fits =
    event-printable on_network d now (datagram sender discovery_available info-text) printable
    ∙ rw
        (
          datagram-args sender discovery_available info-text (info-nonempty name name-is),
          delivered on_network d now sender sender-is (omega (arith, whole, info)) other
              discovery_available refl info-text,
        )
        (unfold dispatch_event in
          available-received on_network d now sender
            (past (past dispatch sender) (discovery_available ∷ [])) name type address ins outs _
            (length-front sender discovery_available) name-is type-lt address-is ins-sorted ins-is
            ins-dot outs-sorted outs-is outs-dot near (omega (arith, whole, info)))
  where
    info-text : Text
    info-text = build_topic_info name type address ins outs

    info-nonempty :
        (n : Text) → is_name n ≡ true → is_empty (build_topic_info n type address ins outs) ≡ false
    info-nonempty [] e = cc
    info-nonempty (c ∷ n) e = unfold build_topic_info in refl

    info :
        length info-text
        ≡ length name
          + length (from_type type)
          + length address
          + length (write_types ins)
          + length (write_types outs)
          + 4
    info = length-info name type address ins outs

    whole : 9 + length sender + 2 + (length info-text + 1) < event_buffer_size
    whole = ground (
      arith,
      length-datagram sender discovery_available info-text,
      info-nonempty name name-is,
      fits,
    )
