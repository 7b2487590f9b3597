-- ===== src/Server.antt =====
-- `Server` (a17/dispatch/server.h and server.cpp): a socket that is bound to a port of the host and
-- stands in the directory. What zmq makes of a bind is the parameter `zmq_bind`: the endpoint that it
-- is bound to, or its error. Logging is left out.
pub mod Ports
mod Tests
use general_tools.Common.{
  ℕ, ◌+◌, ◌%◌, Bool, true, false, ◌&&◌, not, Option, none, some, List, [], ◌∷◌, ◌++◌, Text, text_eq,
  if◌then◌else◌, ◌==◌, is_empty, take, Result, ok, throws,
}
use general_tools.Common.OrderedMap.{OrderedSet}
use general_tools.Address.{Address, set_port, address}
use general_tools.Directory.{Directory, take_server_port}
use general_tools.Directory

pub record Server : Type 0 where
  pub topic_name : Text
  pub address_text : Text
  pub in_directory : Bool

-- A result of the constructor: the server, the directory and what the directory does.
pub record Started : Type 0 where
  pub server : Server
  pub directory : Directory
  pub actions : List Directory.Action

abbrev pub is_bound : Server → Bool
is_bound s = not (is_empty s.address_text)

-- The address that is given back to zmq, if there is one.
unfoldable pub unbind : Server → Option Text
unbind s = if is_empty s.address_text then none else some s.address_text

-- The destructor.
unfoldable pub destroy : Server → Directory → Directory × List Directory.Action
destroy s directory =
    if s.in_directory then Directory.remove directory s.topic_name else (directory, [])

module _ (zmq_bind : Text → Result Text) where
  unfoldable pub bind : Server → Text → Result Server
  bind s a = elim (zmq_bind a) [
    | throws e ↦ throws e
    | ok endpoint ↦ ok (record s { address_text = if text_eq endpoint a then a else endpoint })
  ]

  -- The constructor without a directory.
  unfoldable pub init_address : Text → Result Server
  unfolding bind
  init_address a = bind (record { topic_name = []; address_text = []; in_directory = false }) a

  -- The `try` of the constructor: a port of the directory that cannot be bound is given up for one
  -- that the system chooses.
  unfoldable pub bind_port : Server → Address → ℕ → Result Server
  unfolding bind address
  bind_port s a port =
      let a' = if port == 0 then a else set_port a port in
      elim (bind s (address a')) [
        | ok s' ↦ ok s'
        | throws e ↦ if port == 0 then throws e else bind s (address (set_port a' 0))
      ]

  -- The constructor for a topic of a directory, with the directory as it is left where it throws.
  unfoldable pub init :
      Directory → ℕ → ℕ → Text → OrderedSet → OrderedSet → Address → Directory × Result Started
  init directory now type name ins outs a =
      let (port, directory') = take_server_port directory in
      let s : Server = record { topic_name = name; address_text = []; in_directory = false } in
      (
        directory',
        elim (bind_port s a port) [
          | throws e ↦ throws e
          | ok bound ↦
              elim (Directory.add directory' now name type bound.address_text ins outs
                directory'.my_guid) [
                  | throws e ↦ throws e
                  | ok (mine, (directory'', actions)) ↦ ok (record {
                    server = record bound { in_directory = true };
                    directory = directory'';
                    actions = actions;
                  })
                ]
        ],
      )
