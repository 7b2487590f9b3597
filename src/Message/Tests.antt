-- ===== src/Message/Tests.antt =====
-- Runs of the equality of messages and of their text.
use general_tools.Common.{◌≡◌, refl, [], ◌∷◌, true, false, some, none, text_eq}
use general_tools.Message.{message_vector_eq, parts_eq, id_from_smart_message}
use general_tools.Common.Bytes.{to_bytes, of_bytes}

eq_runs :
    (message_vector_eq ((1 ∷ []) ∷ []) ((1 ∷ []) ∷ []) ≡ true)
    × (message_vector_eq ((1 ∷ []) ∷ []) ((2 ∷ []) ∷ []) ≡ false)
unfolding message_vector_eq parts_eq text_eq
eq_runs = (refl, refl)

id_runs :
    (id_from_smart_message (to_bytes 8 77 ∷ []) ≡ some 77)
    × (id_from_smart_message ((7 ∷ []) ∷ []) ≡ none)
unfolding id_from_smart_message to_bytes of_bytes
id_runs = (refl, refl)
