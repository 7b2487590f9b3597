-- ===== src/SerialPort/Failure.antt =====
-- A port that opened, or not, and its first bytes.
use general_tools.Common.{
  ℕ, ◌<◌, ◌≡◌, refl, ap, Bool, true, false, Option, none, some, List, [], ◌∷◌, length, take, drop,
  if◌then◌else◌, is_empty, arith,
}
use general_tools.BufferPool.{BufferPool}
use general_tools.BufferPool
use general_tools.CharacterDevice
use general_tools.CharacterDevice.{
  CharacterDevice, Action, sends, send_copy, send_parts, of_pool, reset,
}
use general_tools.CharacterDevice.Stream.{send_parts-busy}
use general_tools.SerialPort.{writes_some, uses_null_port, async_send, perform, init, is_open, send}

-- The first buffer of an idle device starts a transmission.
send_copy-idle :
    (d : CharacterDevice) (os : ℕ) (copy : ℕ → List ℕ)
    → d.send_buffers ≡ []
    → 0 < d.high_water_mark
    → ((send_copy d os copy).1 ≡ sends (copy d.pool.buffer_size) ∷ [])
      × (is_empty (send_copy d os copy).0.send_buffers ≡ false)
unfolding send_copy BufferPool.malloc
send_copy-idle d os copy idle mark = ground (arith, idle)

send-idle :
    (d : CharacterDevice) (os : ℕ → ℕ) (bytes : List ℕ)
    → d.send_buffers ≡ []
    → 0 < d.high_water_mark
    → 0 < length bytes
    → (CharacterDevice.send d os bytes).1 ≡ sends (take d.pool.buffer_size bytes) ∷ []
unfolding CharacterDevice.send send_parts
send-idle d os [] idle mark some_bytes = absurd (omega arith)
send-idle d os (x ∷ bytes) idle mark some_bytes =
    let copy = λ (size : ℕ). take size (x ∷ bytes) in
    let first = send_copy-idle d (os (length bytes)) copy idle mark in
    let later =
      send_parts-busy (length bytes) (send_copy d (os (length bytes)) copy).0 os
        (drop d.pool.buffer_size (x ∷ bytes)) first.1 in
    ground (arith, idle, mark, first, later)

-- After the constructor `isOpen` says whether the port opened. The first bytes sent are written to the
-- port, as many as a buffer of the pool takes, if it opened; if not, `send` uses the null port.
pub send_after_init :
    (opens : Bool) (bitrate : ℕ) (pool : BufferPool) (receive_handler error_handler : Option ℕ)
    (os : ℕ → ℕ) (bytes : List ℕ)
    → 0 < length bytes
    → let s = (init opens bitrate pool receive_handler error_handler).0 in
      (is_open s ≡ opens)
      × ((send s os bytes).1
          ≡ (if opens then writes_some (take pool.buffer_size bytes) else uses_null_port) ∷ [])
unfolding init is_open send perform async_send CharacterDevice.init
send_after_init true bitrate pool rh eh os bytes h = (
  refl,
  ap (perform (some true))
      (send-idle (CharacterDevice.init pool rh eh) os bytes refl (omega arith) h),
)
send_after_init false bitrate pool rh eh os bytes h = (
  refl,
  ap (perform none) (send-idle (CharacterDevice.init pool rh eh) os bytes refl (omega arith) h),
)
