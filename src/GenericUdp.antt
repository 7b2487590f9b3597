-- ===== src/GenericUdp.antt =====
-- `GenericUdp` (a17/utils/udp_socket.h and udp_socket.cpp). The bytes of a `double` and the value of
-- eight bytes are parameters. The socket and the timer of boost are actions; `none` is the target before
-- a datagram arrived, an address of all zeros.
pub mod Datagrams
mod Tests
use general_tools.Common.{
  ℕ, zero, suc, ◌/◌, Bool, true, false, Option, none, some, List, [], ◌∷◌, ◌++◌, if◌then◌else◌, ltb,
  length, take, drop,
}

-- The limit of `boost::asio::buffer(receiveBuffer_, 1024)`, in bytes.
abbrev pub receive_limit : ℕ
receive_limit = 1024

pub record GenericUdp : Type 0 where
  pub target : Option ℕ
  pub first_message : Bool

pub data Action (D : Type 0) : Type 0 where
  receives : Action D
  waits_seconds : ℕ → Action D
  handles : List D → Action D
  sends_to : Option ℕ → List ℕ → Action D

-- The constructor, after the socket is bound.
unfoldable pub init : {D : Type 0} → GenericUdp × List (Action D)
init = (record { target = none; first_message = false }, receives ∷ [])

abbrev pub connected : GenericUdp → Bool
connected u = u.first_message

module _ {D : Type 0} (to_bytes : D → List ℕ) (of_bytes : List ℕ → D) where
  -- The memory of a `std::vector<double>`.
  unfoldable pub memory : List D → List ℕ
  memory [] = []
  memory (x ∷ xs) = to_bytes x ++ memory xs

  -- The first `n` numbers of the receive buffer.
  unfoldable pub numbers : ℕ → List ℕ → List D
  numbers zero bytes = []
  numbers (suc n) bytes = of_bytes (take 8 bytes) ∷ numbers n (drop 8 bytes)

  -- `parser`, with the bytes that were received.
  unfoldable pub parser : List ℕ → List (Action D)
  unfolding numbers
  parser bytes =
      if ltb (length bytes) 8 then [] else handles (numbers (length bytes / 8) bytes) ∷ []

  -- `onReceive`, with an error code (0 for none), and without one the sender and the datagram.
  unfoldable pub on_receive : GenericUdp → ℕ → ℕ → List ℕ → GenericUdp × List (Action D)
  unfolding parser
  on_receive u zero sender bytes = (
    record { target = some sender; first_message = true },
    parser (take receive_limit bytes) ++ receives ∷ [],
  )
  on_receive u (suc error) sender bytes = (record u { first_message = true }, waits_seconds 1 ∷ [])

  -- The handler of the recovery timer.
  abbrev pub on_recovery : List (Action D)
  on_recovery = receives ∷ []

  -- `send`; the second argument of `boost::asio::buffer` is `v.size()`.
  unfoldable pub send : GenericUdp → List D → List (Action D)
  unfolding memory
  send u v = if u.first_message then sends_to u.target (take (length v) (memory v)) ∷ [] else []
