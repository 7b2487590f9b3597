-- ===== src/Message/Equality.antt =====
-- Equality of messages, as a decision.
use general_tools.Common.{◌≡◌, ◌↔◌, refl, ap, true, [], ◌∷◌, text_eq_iff, length, arith}
use general_tools.Message.{MessageVector, parts_eq, message_vector_eq}

parts_eq_iff : (a b : MessageVector) → length a ≡ length b → (parts_eq a b ≡ true) ↔ (a ≡ b)
unfolding parts_eq
parts_eq_iff [] [] same = (λ e. refl, λ e. refl)
parts_eq_iff [] (n ∷ ns) same = absurd (omega arith)
parts_eq_iff (m ∷ ms) [] same = absurd (omega arith)
parts_eq_iff (m ∷ ms) (n ∷ ns) same =
    ground (arith, text_eq_iff m n, parts_eq_iff ms ns (omega arith))

-- `operator==` holds of two message vectors exactly if they have the same parts with the same bytes,
-- in the same order.
pub message_vector_eq_iff : (a b : MessageVector) → (message_vector_eq a b ≡ true) ↔ (a ≡ b)
unfolding message_vector_eq
message_vector_eq_iff a b = ground (arith, parts_eq_iff a b, λ (e : a ≡ b). ap length e)
