-- ===== src/SerialPort/Tests.antt =====
-- Ports with buffers of four bytes.
use general_tools.Common.{◌≡◌, refl, true, false, none, some, [], ◌∷◌, arith}
use general_tools.BufferPool
use general_tools.CharacterDevice
use general_tools.SerialPort.{
  sets_baud_rate, reads_some, uses_null_port, calls_receive_handler, init, is_open, send,
  on_receive, async_receive, perform,
}
use general_tools.SerialPort.Failure.{send_after_init}

init_runs :
    ((init true 9600 (BufferPool.init 100 4 8 false) (some 1) none).1
      ≡ sets_baud_rate 9600 ∷ reads_some ∷ [])
    × (on_receive (init true 9600 (BufferPool.init 100 4 8 false) (some 1) none).0 0 (5 ∷ [])
        ≡ calls_receive_handler 1 (5 ∷ []) ∷ reads_some ∷ [])
unfolding init on_receive async_receive perform CharacterDevice.init CharacterDevice.on_receive
init_runs = (refl, refl)

send_after_init_example :
    let s = (init false 9600 (BufferPool.init 100 4 8 false) none none).0 in
    (is_open s ≡ false) × ((send s (λ k. 7) (1 ∷ 2 ∷ [])).1 ≡ uses_null_port ∷ [])
send_after_init_example =
    send_after_init false 9600 (BufferPool.init 100 4 8 false) none none (λ k. 7) (1 ∷ 2 ∷ [])
      (omega arith)
