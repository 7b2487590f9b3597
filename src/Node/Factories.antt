-- ===== src/Node/Factories.antt =====
-- The factories of a node (a17/dispatch/node.h): which constructor each calls, with which arguments. A
-- node is what it hands to them: its directory and its pool. The texts that `typeOf` gives for a type are
-- arguments, and so is the address of the host, which a default `Address` takes.
use general_tools.Common.{ℕ, Bool, Text, Result, List, [], ◌∷◌, codes}
use general_tools.BufferPool.{BufferPool}
use general_tools.Address.{Address}
use general_tools.Directory.{Directory, Action}
use general_tools.Client.{Client}
use general_tools.Client
use general_tools.Server.{Started}
use general_tools.Server
use general_tools.Socket.{Socket}
use general_tools.Socket
use general_tools.Listener.{Listener}
use general_tools.Listener
use general_tools.Repeater.{Repeater}
use general_tools.Repeater
use general_tools.SmartCapnpBuilder.{SmartCapnpBuilder}
use general_tools.SmartCapnpBuilder

-- `ZMQ_PUB` and `ZMQ_REP`.
abbrev pub zmq_pub : ℕ
zmq_pub = 1

abbrev pub zmq_rep : ℕ
zmq_rep = 4

-- `Address()`, with the address of the host and its interface.
abbrev pub default_address : Text → Text → Address
default_address own interface = record {
  protocol = codes "tcp";
  ip = own;
  port = 0;
  interface = interface;
}

module _ (zmq_bind : Text → Result Text) (own interface : Text) where
  -- `registerCapnpPublisher`, and the constructor of `Publisher`.
  unfoldable pub register_publisher : Directory → ℕ → Text → Text → Directory × Result Started
  unfolding Server.init
  register_publisher directory now topic type =
      Server.init zmq_bind directory now zmq_pub topic [] (type ∷ [])
        (default_address own interface)

  -- The server of `registerCapnpReplyServerAsync`, and the constructor of `ReplyServer`.
  unfoldable pub register_reply_server :
      Directory → ℕ → Text → Text → Text → Directory × Result Started
  unfolding Server.init
  register_reply_server directory now topic request_type reply_type =
      Server.init zmq_bind directory now zmq_rep topic (request_type ∷ []) (reply_type ∷ [])
        (default_address own interface)

-- `registerRepeater`, at a time of the clock.
abbrev pub register_repeater : ℕ → ℕ → Bool → Repeater
register_repeater now millis auto_start = Repeater.init now millis auto_start

-- `newCapnpMessageBuilder`.
abbrev pub new_capnp_message_builder : BufferPool → SmartCapnpBuilder
new_capnp_message_builder pool = SmartCapnpBuilder.init pool

-- The subscriber that `registerCapnpSubscriber` makes: a client without connection handlers, and a
-- listener with the wrapped handler and no error handler.
pub record Subscriber : Type 0 where
  pub client : Client
  pub listener : Listener
  pub socket : Socket
  pub filters : List Text

unfoldable pub register_subscriber :
    Directory → Text → ℕ → ℕ → Text → Subscriber × Directory × List Action × List Socket.Action
unfolding Client.init Listener.init
register_subscriber directory topic changed message_handler uuid =
    let (client, directory', actions) = Client.init directory topic 0 0 changed uuid in
    let (listener, socket, received) = Listener.init Socket.init.0 message_handler 0 in
    (
      record { client = client; listener = listener; socket = socket; filters = [] ∷ [] },
      directory',
      actions,
      received,
    )
