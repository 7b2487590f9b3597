-- ===== src/CharacterDevice.antt =====
-- `SendBuffer` and `CharacterDevice` (a17/utils/character_device.h and character_device.cpp): a queue of
-- buffers of the pool, the first of which is being sent. The port itself, `asyncSend` and `asyncReceive`
-- of a derived class, is an action, with the bytes it is asked to send. A handler is a number, none
-- where it is not set. A copy function is what it copies, given the size of the buffer.
pub mod Stream
pub mod Ownership
mod Tests
use general_tools.Common.{
  ℕ, zero, suc, ◌+◌, ◌-◌, ◌%◌, ◌^◌, ◌==◌, Bool, true, false, not, Option, none, some, List, [], ◌∷◌,
  ◌++◌, if◌then◌else◌, leb, ltb, length, take, drop, is_empty,
}
use general_tools.BufferPool.{BufferPool}
use general_tools.BufferPool

-- Who takes a buffer back: the system's `free`, or the pool.
pub data Owner : Type 0 where
  system : Owner
  pooled : Owner

-- The bytes are the first `size_` ones of the buffer.
pub record SendBuffer : Type 0 where
  pub owner : Owner
  pub buffer : ℕ
  pub max_size : ℕ
  pub bytes : List ℕ
  pub pos : ℕ

-- `SendBuffer(maxSize)`, with what the system's `malloc` returns.
unfoldable pub of_system : ℕ → ℕ → SendBuffer
of_system os max_size = record {
  owner = system;
  buffer = os;
  max_size = max_size;
  bytes = [];
  pos = 0;
}

-- `SendBuffer(pool)`; `os` is what the system's `malloc` returns, if the pool is empty.
abbrev pub of_pool : BufferPool → ℕ → SendBuffer × BufferPool
of_pool p os =
    let (ptr, p') = BufferPool.malloc p os in
    (record { owner = pooled; buffer = ptr; max_size = p.buffer_size; bytes = []; pos = 0 }, p')

-- `reset(size)`, with the bytes that were copied.
abbrev pub reset : SendBuffer → List ℕ → SendBuffer
reset b bytes = record b { bytes = bytes; pos = 0 }

-- `SendBuffer(SendBuffer &&other)`: the new buffer, and the other one without its memory.
unfoldable pub move : SendBuffer → SendBuffer × SendBuffer
move b = (b, record b { buffer = 0 })

-- `~SendBuffer()`: the pool, and what goes to the system's `free`.
unfoldable pub destroy : SendBuffer → BufferPool → BufferPool × Option ℕ
unfolding BufferPool.free
destroy b p =
    if b.buffer == 0
    then (p, none)
    else elim b.owner [ system ↦ (p, some b.buffer) | pooled ↦ BufferPool.free p b.buffer ]

abbrev pub is_sent : SendBuffer → Bool
is_sent b = leb (length b.bytes) b.pos

abbrev pub advance : SendBuffer → ℕ → SendBuffer
advance b n = record b { pos = b.pos + n }

-- What is left to send.
abbrev pub cbuffer : SendBuffer → List ℕ
cbuffer b = drop b.pos b.bytes

pub record CharacterDevice : Type 0 where
  pub pool : BufferPool
  pub send_buffers : List SendBuffer
  pub high_water_mark : ℕ
  pub receive_handler : Option ℕ
  pub error_handler : Option ℕ

pub data Action : Type 0 where
  sends : List ℕ → Action
  receives : ℕ → List ℕ → Action
  fails : ℕ → ℕ → Action
  receives_again : Action

abbrev pub default_high_water_mark : ℕ
default_high_water_mark = 1024

-- The constructor, with the new pool.
unfoldable pub init : BufferPool → Option ℕ → Option ℕ → CharacterDevice
init pool receive_handler error_handler = record {
  pool = pool;
  send_buffers = [];
  high_water_mark = default_high_water_mark;
  receive_handler = receive_handler;
  error_handler = error_handler;
}

-- `CharacterDevice(CharacterDevice &&other)`, with the new pool: what is moved are the handlers and the
-- high water mark.
unfoldable pub moved : BufferPool → CharacterDevice → CharacterDevice
unfolding init
moved pool other = record (init pool other.receive_handler other.error_handler) {
  high_water_mark = other.high_water_mark;
}

abbrev pub set_receive_handler : CharacterDevice → Option ℕ → CharacterDevice
set_receive_handler d handler = record d { receive_handler = handler }

-- `sendHighWaterMark`, a `uint32_t`.
abbrev pub send_high_water_mark : CharacterDevice → ℕ → CharacterDevice
send_high_water_mark d hwm = record d { high_water_mark = hwm % 2 ^ 32 }

abbrev pub exceeded_high_water_mark : CharacterDevice → Bool
exceeded_high_water_mark d = leb d.high_water_mark (length d.send_buffers)

-- `send(copy)`; `os` is what the system's `malloc` returns, if the pool is empty.
unfoldable pub send_copy : CharacterDevice → ℕ → (ℕ → List ℕ) → CharacterDevice × List Action
unfolding BufferPool.malloc
send_copy d os copy =
    if exceeded_high_water_mark d
    then (d, [])
    else let (empty, pool') = of_pool d.pool os in
      let buffer = reset empty (copy empty.max_size) in
      (
        record d { pool = pool'; send_buffers = d.send_buffers ++ buffer ∷ [] },
        if is_empty d.send_buffers then sends (cbuffer buffer) ∷ [] else [],
      )

-- The loop of `send(buffer, bytes)`, with the bytes from `i` on; each round sends a part. `os k` is
-- what the system's `malloc` returns in the round with k rounds left.
unfoldable pub send_parts : ℕ → CharacterDevice → (ℕ → ℕ) → List ℕ → CharacterDevice × List Action
unfolding send_copy
send_parts zero d os bytes = (d, [])
send_parts (suc fuel) d os bytes =
    let (d', sent) = send_copy d (os fuel) (λ size. take size bytes) in
    let (d'', later) = send_parts fuel d' os (drop d.pool.buffer_size bytes) in
    if is_empty bytes then (d, []) else (d'', sent ++ later)

-- `send(buffer, bytes)`. The size of a buffer is positive, so there are at most as many rounds as bytes.
unfoldable pub send : CharacterDevice → (ℕ → ℕ) → List ℕ → CharacterDevice × List Action
unfolding send_parts
send d os bytes =
    if exceeded_high_water_mark d then (d, []) else send_parts (length bytes) d os bytes

-- `onSend`, with an error code (0 for none). It is called only while a buffer is being sent; the
-- front of an empty queue is not defined in the source.
unfoldable pub on_send : CharacterDevice → ℕ → ℕ → CharacterDevice × List Action
unfolding destroy
on_send d zero n = elim d.send_buffers [
  | [] ↦ (d, [])
  | b ∷ bs ↦
      let b' = advance b n in
      if is_sent b'
      then (
        record d { pool = (destroy b' d.pool).0; send_buffers = bs },
        elim bs [ [] ↦ [] | c ∷ cs ↦ sends (cbuffer c) ∷ [] ],
      )
      else (record d { send_buffers = b' ∷ bs }, sends (cbuffer b') ∷ [])
]
on_send d (suc error) n = (d, [])

-- `onReceive`, with an error code (0 for none) and the bytes received.
unfoldable pub on_receive : CharacterDevice → ℕ → List ℕ → List Action
on_receive d zero bytes =
    elim d.receive_handler [ none ↦ [] | some handler ↦ receives handler bytes ∷ [] ]
    ++ receives_again ∷ []
on_receive d (suc error) bytes =
    elim d.error_handler [ none ↦ [] | some handler ↦ fails handler (suc error) ∷ [] ]
    ++ receives_again ∷ []
