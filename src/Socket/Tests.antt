-- ===== src/Socket/Tests.antt =====
-- A socket that is made, receives, and gets errors and messages.
use general_tools.Common.{◌≡◌, refl, [], ◌∷◌, ok, throws, codes, false}
use general_tools.Socket.{Socket, fails, init, receive, on_receive}

abbrev socket : Socket
socket = record { received_message = []; smart_message_handler = 5; error_handler = 6 }

init_runs : (receive (init.0) 5 6).0 ≡ socket
unfolding init receive
init_runs = refl

error_runs : on_receive socket 4 (record { bytes = []; more = false }) ≡ ok (socket, fails 6 4 ∷ [])
unfolding on_receive
error_runs = refl

no_handler_runs :
    on_receive init.0 0 (record { bytes = 1 ∷ []; more = false })
    ≡ throws (codes "bad_function_call")
unfolding init on_receive
no_handler_runs = refl
