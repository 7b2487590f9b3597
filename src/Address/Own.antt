-- ===== src/Address/Own.antt =====
-- `OwnAddress` (a17/dispatch/address.h and address.cpp): the interface of the host that a node uses.
-- What `getifaddrs` gives is an argument: for each interface its name, whether it has an address of
-- the family AF_INET, the texts that `getnameinfo` makes of its three addresses (`none` for an error),
-- and the numbers of its address and netmask.
use Prim.Native.Nat.{bit_and}
use general_tools.Common.{
  ℕ, ◌+◌, ◌^◌, Bool, ◌&&◌, Option, none, some, List, [], ◌∷◌, Text, codes, text_eq, if◌then◌else◌,
  is_empty,
}

pub record Interface : Type 0 where
  pub name : Text
  pub is_inet : Bool
  pub address : Option Text
  pub broadcast : Option Text
  pub netmask : Option Text
  pub address_number : ℕ
  pub netmask_number : ℕ

pub record OwnAddress : Type 0 where
  pub address : Text
  pub broadcast : Text
  pub netmask : Text
  pub network : ℕ
  pub mask : ℕ
  pub interface : Text

-- `inet_addr` of 127.0.0.1 and of 255.255.255.255, on a little-endian host.
abbrev pub localhost_number : ℕ
localhost_number = 127 + 2 ^ 24

abbrev pub all_ones : ℕ
all_ones = 4294967295

abbrev pub localhost : OwnAddress
localhost = record {
  address = codes "127.0.0.1";
  broadcast = codes "127.0.0.1";
  netmask = codes "255.255.255.255";
  network = localhost_number;
  mask = all_ones;
  interface = [];
}

-- A text that is there and not empty.
abbrev pub filled : Option Text → Option Text
filled none = none
filled (some t) = if is_empty t then none else some t

-- The body of the loop for one interface, if that is the one that is asked for and has all addresses.
unfoldable pub usable : Text → Interface → Option OwnAddress
usable interface i =
    if i.is_inet && text_eq i.name interface
    then elim (filled i.address) [
      | none ↦ none
      | some address ↦ elim (filled i.broadcast) [
        | none ↦ none
        | some broadcast ↦ elim (filled i.netmask) [
          | none ↦ none
          | some netmask ↦ some (record {
            address = address;
            broadcast = broadcast;
            netmask = netmask;
            network = bit_and i.address_number i.netmask_number;
            mask = i.netmask_number;
            interface = interface;
          })
        ]
      ]
    ]
    else none

-- The loop over the interfaces.
unfoldable pub select : Text → List Interface → OwnAddress
unfolding usable
select interface [] = localhost
select interface (i ∷ interfaces) =
    let rest = select interface interfaces in
    elim (usable interface i) [ none ↦ rest | some own ↦ own ]

-- The constructor, from the environment variable and the interfaces, if the host gives them.
unfoldable pub own_address : Option Text → Option (List Interface) → OwnAddress
unfolding select
own_address none interfaces = localhost
own_address (some interface) none = localhost
own_address (some interface) (some interfaces) = select interface interfaces
