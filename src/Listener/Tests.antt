-- ===== src/Listener/Tests.antt =====
-- The handlers of a listener at one message, and the filters of a sub server.
use general_tools.Common.{ℕ, ◌≡◌, refl, [], ◌∷◌, ok, false, Bool, codes}
use general_tools.Message.{MessageVector}
use general_tools.Socket.{handles}
use general_tools.Listener.{call_all, sub_server_filters}

abbrev calm : ℕ → MessageVector → Bool
calm h m = false

all_runs : call_all calm (4 ∷ 5 ∷ []) [] ≡ ok (handles 4 [] ∷ handles 5 [] ∷ [])
unfolding call_all
all_runs = refl

sub_server_runs : sub_server_filters ([] ∷ codes "a" ∷ []) ≡ [] ∷ codes "a" ∷ []
unfolding sub_server_filters
sub_server_runs = refl
