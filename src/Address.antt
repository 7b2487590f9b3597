-- ===== src/Address.antt =====
-- `Address` (a17/dispatch/address.h and address.cpp): an endpoint and its text, and the test of
-- `OwnAddress::onNetwork`, which takes the result of `inet_addr`, a number of 32 bits.
pub mod RoundTrip
pub mod Own
mod Tests
use Prim.Native.Nat.{bit_and}
use general_tools.Common.{
  ℕ, ◌+◌, ◌-◌, Bool, true, false, ◌&&◌, ◌||◌, Option, none, some, List, [], ◌∷◌, ◌++◌, Text, codes,
  text_eq, if◌then◌else◌, ◌==◌, take, drop,
}
use general_tools.Common.Decimal.{to_string, strtol16}

pub record Address : Type 0 where
  pub protocol : Text
  pub ip : Text
  pub port : ℕ
  pub interface : Text

-- The constructor with all parts; `interface_` is left empty.
abbrev pub make : Text → Text → ℕ → Address
make protocol ip port = record { protocol = protocol; ip = ip; port = port; interface = [] }

-- The copy constructor.
unfoldable pub copy : Address → Address
copy a = make a.protocol a.ip a.port

abbrev pub set_port : Address → ℕ → Address
set_port a port = record a { port = port }

-- `address()`, which is also the conversion to a string.
unfoldable pub address : Address → Text
address a = a.protocol ++ (codes "://" ++ (a.ip ++ (codes ":" ++ to_string a.port)))

unfoldable pub is_localhost : Address → Bool
is_localhost a = text_eq a.ip (codes "127.0.0.1") || text_eq a.ip (codes "localhost")

unfoldable pub starts_with : Text → Text → Bool
starts_with [] s = true
starts_with (p ∷ ps) [] = false
starts_with (p ∷ ps) (c ∷ cs) = c == p && starts_with ps cs

-- `find` of a pattern that is not empty, in the rest of a string that begins at `pos`.
unfoldable pub find : Text → Text → ℕ → Option ℕ
unfolding starts_with
find pattern [] pos = none
find pattern (c ∷ cs) pos =
    let later = find pattern cs (pos + 1) in
    if starts_with pattern (c ∷ cs) then some pos else later

-- The part of `parse` behind the protocol.
unfoldable pub parse_from : Text → Text → ℕ → Address
unfolding find
parse_from s protocol pos = elim (find (codes ":") (drop pos s) pos) [
  | none ↦ make protocol (drop pos s) 0
  | some p ↦ make protocol (take (p - pos) (drop pos s)) (strtol16 (drop (p + 1) s))
]

unfoldable pub parse : Text → Address
unfolding parse_from
parse s = elim (find (codes "://") s 0) [
  | none ↦ parse_from s (codes "tcp") 0
  | some p ↦ parse_from s (take p s) (p + 3)
]

-- `onNetwork`, from the address as a number, the netmask and the network.
unfoldable pub on_network : ℕ → ℕ → ℕ → Bool
on_network ip mask network = bit_and ip mask == network
