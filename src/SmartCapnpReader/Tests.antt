-- ===== src/SmartCapnpReader/Tests.antt =====
-- Runs of the readers.
use general_tools.Common.{
  ◌≡◌, ℕ, List, if◌then◌else◌, is_empty, codes, refl, none, some, [], ◌∷◌, ok, throws, false, is_ok,
}
use general_tools.Common.Bytes.{to_bytes}
use general_tools.Message.{id_from_smart_message}
use general_tools.SmartCapnpReader.{Capnp, of_message_vector, capnp_buffer, get_root}

-- Bytes as they are, but for an empty buffer.
abbrev bytes : Capnp (List ℕ)
bytes = record {
  raises_open = λ b. if is_empty b then some (codes "empty") else none;
  read_root = ok;
}

short_runs :
    (of_message_vector bytes ((1 ∷ []) ∷ (2 ∷ []) ∷ []) ≡ none)
    × (of_message_vector bytes (to_bytes 8 5 ∷ (2 ∷ []) ∷ []) ≡ some (throws (codes "empty")))
unfolding of_message_vector capnp_buffer id_from_smart_message to_bytes
short_runs = (refl, refl)

buffer_runs :
    capnp_buffer (1 ∷ 2 ∷ 3 ∷ 4 ∷ 5 ∷ 6 ∷ 7 ∷ 8 ∷ 9 ∷ []) ≡ 1 ∷ 2 ∷ 3 ∷ 4 ∷ 5 ∷ 6 ∷ 7 ∷ 8 ∷ []
unfolding capnp_buffer
buffer_runs = refl

root_runs :
    (get_root bytes (record { id = 5; buffer = 1 ∷ [] }) 5 ≡ ok (1 ∷ []))
    × (is_ok (get_root bytes (record { id = 5; buffer = 1 ∷ [] }) 6) ≡ false)
unfolding get_root
root_runs = (refl, refl)
