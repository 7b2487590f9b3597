-- ===== src/SocketTypes/Tests.antt =====
-- Runs of the tables of socket types, and the theorems at a type.
use general_tools.Common.{◌≡◌, refl, some, none, true, codes, text_eq}
use general_tools.SocketTypes.{from_name, can_connect}

unknown_name : from_name (codes "NONE") ≡ none
unfolding from_name text_eq
unknown_name = refl

connect_runs : (can_connect 1 2 ≡ some true) × (can_connect 12 1 ≡ none)
unfolding can_connect
connect_runs = (refl, refl)
