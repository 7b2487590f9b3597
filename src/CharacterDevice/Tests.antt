-- ===== src/CharacterDevice/Tests.antt =====
-- A device with buffers of four bytes that sends six bytes, and the theorems at it.
use general_tools.Common.{ℕ, some, none, ◌≡◌, refl, false, List, [], ◌∷◌, ◌++◌, drop, arith}
use mathlib.Core.List.{Perm, Nodup}
use general_tools.BufferPool
use general_tools.BufferPool.{buffers}
use general_tools.BufferPool.Queue.{available}
use general_tools.CharacterDevice.Ownership.{sends_copy, sent, after_all, held_in, device_history}
use general_tools.CharacterDevice.{
  CharacterDevice, SendBuffer, pooled, init, sends, receives, receives_again, send, on_send,
  on_receive,
}
use general_tools.CharacterDevice.Stream.{
  pending, next_sends, send_lem, on_send_lem, send_all, send_error_stalls,
}

abbrev idle : CharacterDevice
unfolding init BufferPool.init
idle = record (init (BufferPool.init 100 4 8 false) (some 1) none) { high_water_mark = 10 }

abbrev message : List ℕ
message = 1 ∷ 2 ∷ 3 ∷ 4 ∷ 5 ∷ 6 ∷ []

abbrev first : SendBuffer
first = record { owner = pooled; buffer = 100; max_size = 4; bytes = 1 ∷ 2 ∷ 3 ∷ 4 ∷ []; pos = 0 }

abbrev second : SendBuffer
second = record { owner = pooled; buffer = 104; max_size = 4; bytes = 5 ∷ 6 ∷ []; pos = 0 }

abbrev sending : CharacterDevice
sending = record idle { send_buffers = first ∷ second ∷ [] }

send_runs :
    ((send idle (λ k. 7) message).1 ≡ sends (1 ∷ 2 ∷ 3 ∷ 4 ∷ []) ∷ [])
    × ((send idle (λ k. 7) message).0.send_buffers ≡ first ∷ second ∷ [])
unfolding send idle init BufferPool.init
send_runs = (refl, refl)

on_receive_runs : on_receive idle 0 (9 ∷ []) ≡ receives 1 (9 ∷ []) ∷ receives_again ∷ []
unfolding on_receive idle init BufferPool.init
on_receive_runs = refl

send_lem_example : pending (send idle (λ k. 7) message).0 ≡ pending idle ++ message
unfolding idle init BufferPool.init
send_lem_example =
    send_lem idle 2 (λ k. 7) message (omega arith) (omega arith) (omega arith) (omega arith)

on_send_lem_example :
    let (d', actions) = on_send sending 0 3 in
    (pending d' ≡ drop 3 (pending sending)) × (actions ≡ next_sends d')
on_send_lem_example = on_send_lem sending first (second ∷ []) 3 refl (omega arith)

send_error_stalls_example :
    let (d', actions) = on_send sending 5 0 in
    (actions ≡ []) × ((send_all d' (((λ k. 7), message) ∷ ((λ k. 7), 9 ∷ []) ∷ [])).1 ≡ [])
send_error_stalls_example =
    send_error_stalls sending 5 0 (((λ k. 7), message) ∷ ((λ k. 7), 9 ∷ []) ∷ []) (omega arith) refl

device_history_example :
    let d =
      after_all
        (init (BufferPool.init 100 4 8 false) none none)
        (sends_copy 7 (λ n. 1 ∷ 2 ∷ []) ∷ sends_copy 7 (λ n. 3 ∷ []) ∷ sent 0 2 ∷ []) in
    Perm (available d.pool ++ held_in 100 4 8 d.send_buffers) (buffers 100 4 0 8)
    × Nodup (available d.pool ++ held_in 100 4 8 d.send_buffers)
device_history_example =
    device_history 100 4 8 false none none
      (sends_copy 7 (λ n. 1 ∷ 2 ∷ []) ∷ sends_copy 7 (λ n. 3 ∷ []) ∷ sent 0 2 ∷ []) (omega arith)
      (omega arith) (omega arith) (omega arith)
      ((refl, omega arith), ((refl, omega arith), (tt, tt)))
