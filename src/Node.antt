-- ===== src/Node.antt =====
-- `Node` (a17/dispatch/node.h and node.cpp): the life of a node, and the handlers that it puts between
-- a socket and the typed handlers of the application, with `DeviceName()` (defs.cpp), whose flag and
-- environment variable are arguments. What capnp reads in a buffer or throws is the parameter `Capnp`, and what the handlers of
-- the application do are the parameters of the sections. Logging is left out.
pub mod Typed
pub mod Replies
pub mod Factories
pub mod Link
mod Tests
use general_tools.Common.{
  ℕ, ◌+◌, Bool, true, false, ◌||◌, not, any, Option, none, some, List, [], ◌∷◌, ◌++◌, Text, codes,
  if◌then◌else◌, ◌==◌, is_empty, Result, ok, throws,
}
use general_tools.Message.{MessageVector}
use general_tools.Topic.{Topic}
use general_tools.SmartCapnpReader.{Capnp, of_message_vector, get_root}

pub record Node : Type 0 where
  pub name : Text
  pub signaled_shutdown : Bool
  -- Whether the event loop is told to stop, and whether a thread runs it.
  pub stopped : Bool
  pub has_thread : Bool
  pub waits_for_signal : Bool

unfoldable pub init : Text → Result Node
init name =
    let name' = if not (is_empty name) then name else codes "Node" in
    if any (λ c. c == b' ') name'
    then throws (codes "Process name must not contain spaces")
    else ok (record {
      name = name';
      signaled_shutdown = false;
      stopped = false;
      has_thread = false;
      waits_for_signal = true;
    })

-- `DeviceName()`.
unfoldable pub device_name : Text → Option Text → Text
device_name flag env =
    if not (is_empty flag) then flag else elim env [ none ↦ [] | some name ↦ name ]

unfoldable pub topic : Text → Node → Text → Topic
topic device n t = record { device_name = device; node_name = n.name; topic = t }

unfoldable pub start : Node → Node
start n = record n { has_thread = true }

unfoldable pub stop : Node → Node
stop n = record n { signaled_shutdown = true; stopped = true }

-- `signal`, with an error code (0 for none).
unfoldable pub signal : Node → ℕ → Node
unfolding stop
signal n error =
    let n' = record n { waits_for_signal = false } in if error == 0 then stop n' else n'

-- The destructor; the flag tells whether it waits for the thread.
unfoldable pub destroy : Node → Node × Bool
unfolding stop
destroy n = (stop n, n.has_thread)

-- What a wrapped handler does: it calls the handler of the application, or the one for errors.
pub data Event {ℓ} (Root : Type ℓ) : Type ℓ where
  handles_root : Root → Event Root
  handles_error : Text → Event Root

module _ {ℓ} {Root : Type ℓ} (capnp : Capnp Root) (type_id : ℕ) where
  -- The handler that `registerCapnpSubscriber` makes. `raises` is what the handler of the application
  -- throws for a message.
  unfoldable pub subscriber_handler :
      (Root → Option Text) → MessageVector → Option (List (Event Root))
  unfolding of_message_vector get_root
  subscriber_handler raises message = elim (of_message_vector capnp message) [
    | none ↦ none
    | some (throws e) ↦ some (handles_error e ∷ [])
    | some (ok reader) ↦ elim (get_root capnp reader type_id) [
      | throws e ↦ some (handles_error e ∷ [])
      | ok root ↦ elim (raises root) [
        | none ↦ some (handles_root root ∷ [])
        | some e ↦ some (handles_root root ∷ handles_error e ∷ [])
      ]
    ]
  ]

  -- The handler that `registerCapnpReplyServerAsync` makes, as a reaction: the replies and whether it
  -- throws. `answer` gives the replies of the handler of the application and what it throws after
  -- them, `answer_error` the replies of the one for errors and whether that throws.
  unfoldable pub reply_handler :
      (Root → List MessageVector × Option Text)
      → (Text → List MessageVector × Bool)
      → MessageVector
      → Option (List MessageVector × Bool)
  unfolding of_message_vector get_root
  reply_handler answer answer_error message = elim (of_message_vector capnp message) [
    | none ↦ none
    | some (throws e) ↦ some (answer_error e)
    | some (ok reader) ↦ elim (get_root capnp reader type_id) [
      | throws e ↦ some (answer_error e)
      | ok root ↦
          let (replies, raised) = answer root in
          elim raised [
            | none ↦ some (replies, false)
            | some e ↦ let (more, threw) = answer_error e in some (replies ++ more, threw)
          ]
    ]
  ]
