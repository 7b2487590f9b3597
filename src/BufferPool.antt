-- ===== src/BufferPool.antt =====
-- a17/utils/buffer_pool.h and buffer_pool.cpp: the pool of send buffers, a ring of free pointers.
-- An address is a number, and the null pointer is 0. What `::malloc` returns is an argument, and
-- what goes to `::free` is part of the result. The mutex of `free` only makes the call atomic, as
-- every call of the model is; `single_threaded` is kept as data.
pub mod Invariant
pub mod Queue
pub mod Ownership
mod Tests
use general_tools.Common.{
  ℕ, zero, suc, ◌+◌, ◌-◌, ◌*◌, ◌%◌, ◌^◌, Bool, true, false, ◌||◌, ◌&&◌, Option, none, some, List,
  [], ◌∷◌, ◌++◌, ltb, leb, ◌==◌, if◌then◌else◌, get_or, set,
}

pub record BufferPool : Type 0 where
  pub pool : ℕ
  pub pool_size : ℕ
  pub buffer_size : ℕ
  pub buffer_count : ℕ
  pub single_threaded : Bool
  pub ptrs : List ℕ
  pub head : ℕ
  pub tail : ℕ

abbrev pub default_pool_buffer_count : ℕ
default_pool_buffer_count = 64

abbrev pub default_pool_buffer_size : ℕ
default_pool_buffer_size = 64 * 8

-- The addresses `pool + i * size`, for `i` from the first argument on.
unfoldable pub buffers : ℕ → ℕ → ℕ → ℕ → List ℕ
buffers pool size i zero = []
buffers pool size i (suc n) = (pool + i * size) ∷ buffers pool size (i + 1) n

-- The constructor, with `pool` the block that `::malloc(poolSize_)` returned.
unfoldable pub init : ℕ → ℕ → ℕ → Bool → BufferPool
unfolding buffers
init pool size count single = record {
  pool = pool;
  pool_size = count * size % 2 ^ 64;
  buffer_size = size;
  buffer_count = count;
  single_threaded = single;
  ptrs = buffers pool size 0 count ++ 0 ∷ [];
  head = 0;
  tail = count;
}

abbrev pub next : BufferPool → ℕ → ℕ
next p pos = (pos + 1) % (p.buffer_count + 1)

unfoldable pub empty : BufferPool → Bool
empty p = p.head == p.tail

unfoldable pub full : BufferPool → Bool
full p = next p p.tail == p.head

-- `uint16_t`; the difference is computed in `int`, and is not negative on either branch.
unfoldable pub remaining : BufferPool → ℕ
remaining p =
    (if ltb p.head p.tail then p.tail - p.head else p.buffer_count + 1 - (p.head - p.tail)) % 2 ^ 16

-- `os` is what `::malloc(bufferSize_)` returns, if it is called.
unfoldable pub malloc : BufferPool → ℕ → ℕ × BufferPool
malloc p os =
    if p.head == p.tail
    then (os, p)
    else (get_or p.ptrs p.head 0, record p { head = next p p.head })

-- Memory, byte by byte.
abbrev pub Memory : Type 0
Memory = ℕ → ℕ

abbrev pub memset : Memory → ℕ → ℕ → ℕ → Memory
memset m ptr value n a = if leb ptr a && ltb a (ptr + n) then value else m a

unfoldable pub calloc : BufferPool → Memory → ℕ → ℕ × BufferPool × Memory
unfolding malloc
calloc p m os =
    let (ptr, p') = malloc p os in (ptr, p', if ptr == 0 then m else memset m ptr 0 p.buffer_size)

-- The option is what is handed to `::free`.
unfoldable pub free : BufferPool → ℕ → BufferPool × Option ℕ
free p ptr =
    if ltb ptr p.pool || leb (p.pool + p.pool_size) ptr
    then (p, some ptr)
    else (record p { ptrs = set p.ptrs p.tail ptr; tail = next p p.tail }, none)

-- `zmqFree(ptr, hint)`, with `hint` the pool itself.
unfoldable pub zmq_free : ℕ → BufferPool → BufferPool × Option ℕ
unfolding free
zmq_free ptr hint = free hint ptr
