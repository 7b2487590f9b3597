-- ===== src/GenericUdp/Tests.antt =====
-- Numbers of eight bytes, of which the first one counts.
use general_tools.Common.{ℕ, ◌≡◌, ◌/◌, refl, true, some, List, [], ◌∷◌, length, take, get_or, arith}
use general_tools.GenericUdp.{
  GenericUdp, handles, receives, waits_seconds, sends_to, init, memory, parser, on_receive, send,
}
use general_tools.GenericUdp.Datagrams.{
  arrives, errs, after_all, peer_reads_an_eighth, send_after_history,
}

abbrev to_bytes : ℕ → List ℕ
to_bytes n = n ∷ 0 ∷ 0 ∷ 0 ∷ 0 ∷ 0 ∷ 0 ∷ 0 ∷ []

abbrev of_bytes : List ℕ → ℕ
of_bytes bytes = get_or bytes 0 0

abbrev talking : GenericUdp
talking = record { target = some 7; first_message = true }

abbrev nine : List ℕ
nine = 1 ∷ 2 ∷ 3 ∷ 4 ∷ 5 ∷ 6 ∷ 7 ∷ 8 ∷ 9 ∷ []

short_datagram : (on_receive to_bytes of_bytes talking 0 5 (1 ∷ 2 ∷ [])).1 ≡ receives ∷ []
unfolding on_receive parser
short_datagram = refl

error_waits : (on_receive to_bytes of_bytes talking 3 0 []).1 ≡ waits_seconds 1 ∷ []
unfolding on_receive
error_waits = refl

peer_reads_an_eighth_example :
    let bytes = take (length nine) (memory to_bytes of_bytes nine) in
    (send to_bytes of_bytes talking nine ≡ sends_to (some 7) bytes ∷ [])
    × ((on_receive to_bytes of_bytes talking 0 5 bytes).1
        ≡ handles (take (length nine / 8) nine) ∷ receives ∷ [])
peer_reads_an_eighth_example =
    peer_reads_an_eighth to_bytes of_bytes (λ x. refl) (λ x. refl) talking talking 5 nine refl
      (omega arith) (omega arith)

send_after_history_example :
    send to_bytes of_bytes
      (after_all to_bytes of_bytes (init {D = ℕ}).0 (arrives 5 (1 ∷ []) ∷ errs 3 ∷ []))
      nine
    ≡ sends_to (some 5) (take 9 (memory to_bytes of_bytes nine)) ∷ []
send_after_history_example =
    send_after_history to_bytes of_bytes (arrives 5 (1 ∷ []) ∷ errs 3 ∷ []) nine
