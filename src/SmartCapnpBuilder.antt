-- ===== src/SmartCapnpBuilder.antt =====
-- `SmartCapnpBuilder` (a17/dispatch/smart_capnp_builder.h and smart_capnp_builder.cpp): the segments
-- of a capnp message, in buffers of a pool, and the message that is made of them. The pool and the
-- memory are shared with others, so each operation takes them and gives them back. What the system's
-- `calloc` and `malloc` return are arguments, 0 for a failure. A segment for output is the list of
-- its words; a word is a number of 64 bits. The size that capnp computes for the serialized segments
-- is the parameter `serialized_size` (in words).
pub mod Frame
pub mod Segments
mod Tests
use general_tools.Common.{
  ℕ, zero, suc, ◌+◌, ◌-◌, ◌*◌, ◌/◌, ◌%◌, ◌^◌, ◌<◌, Bool, true, false, ◌&&◌, ◌||◌, not, Option, none,
  some, List, [], ◌∷◌, ◌++◌, codes, if◌then◌else◌, leb, ltb, ◌==◌, length, max, Result, ok, throws,
  take, drop,
}
use general_tools.Common.Bytes.{to_bytes, write}
use general_tools.BufferPool.{BufferPool, Memory, memset}
use general_tools.BufferPool
use general_tools.Message.{Message, MessageVector}

-- `sizeof(capnp::word)`.
abbrev pub word_size : ℕ
word_size = 8

-- A block that `allocateSegment` took, and whether it counts as one of the pool.
pub record Segment : Type 0 where
  pub block : ℕ
  pub is_pooled : Bool

pub record SmartCapnpBuilder : Type 0 where
  pub id : ℕ
  pub next_size : ℕ
  pub own_first_segment : Bool
  pub returned_first_segment : Bool
  pub first_segment : Segment
  pub more_segments : List Segment
  pub invalidated : Bool

unfoldable pub init : BufferPool → SmartCapnpBuilder
init pool = record {
  id = 0;
  next_size = pool.buffer_size / word_size;
  own_first_segment = true;
  returned_first_segment = false;
  first_segment = record { block = 0; is_pooled = false };
  more_segments = [];
  invalidated = false;
}

-- The move constructor: the new builder, and the old one as it is left; a `kj::Maybe` that was moved
-- from holds nothing.
unfoldable pub move : SmartCapnpBuilder → SmartCapnpBuilder × SmartCapnpBuilder
move other = (record other { invalidated = true }, record other { more_segments = [] })

-- The words that `allocateSegment` returns.
pub record Words : Type 0 where
  pub start : ℕ
  pub count : ℕ

abbrev pub keep : SmartCapnpBuilder → Segment → SmartCapnpBuilder
keep b segment =
    if not b.returned_first_segment
    then record b { first_segment = segment; returned_first_segment = true }
    else record b { more_segments = b.more_segments ++ segment ∷ [] }

pub record Allocated : Type 0 where
  pub words : Words
  pub builder : SmartCapnpBuilder
  pub pool : BufferPool
  pub memory : Memory

-- The part of `allocateSegment` that takes a block: `fallback` is the result of `malloc` inside the
-- pool, `os` that of the system's `calloc`.
unfoldable pub allocate_block :
    SmartCapnpBuilder → BufferPool → Memory → ℕ → ℕ → ℕ → Result Allocated
allocate_block b pool memory fallback os minimum_size =
    let size = max minimum_size b.next_size in
    let use_pool = leb (size * word_size) pool.buffer_size in
    let (pooled, pool', memory') = BufferPool.calloc pool memory fallback in
    if use_pool && not (pooled == 0)
    then ok (record {
      words = record { start = pooled; count = size };
      builder = keep b (record { block = pooled; is_pooled = use_pool });
      pool = pool';
      memory = memory';
    })
    else if os == 0
    then throws (codes "calloc failed")
    else ok (record {
      words = record { start = os; count = size };
      builder = keep b (record { block = os; is_pooled = use_pool });
      pool = if use_pool then pool' else pool;
      memory = memset (if use_pool then memory' else memory) os 0 (size * word_size);
    })

unfoldable pub allocate_segment :
    SmartCapnpBuilder → BufferPool → Memory → ℕ → ℕ → ℕ → Result Allocated
unfolding allocate_block
allocate_segment b pool memory fallback os minimum_size =
    if not b.returned_first_segment && not b.own_first_segment
    then if leb minimum_size b.next_size
      then ok (record {
        words = record { start = b.first_segment.block; count = b.next_size };
        builder = record b { returned_first_segment = true };
        pool = pool;
        memory = memory;
      })
      else allocate_block (record b { own_first_segment = true }) pool memory fallback os
          minimum_size
    else allocate_block b pool memory fallback os minimum_size

-- `pool->free` or `free`, and the blocks that go to the system's `free`.
unfoldable pub release : BufferPool → Segment → BufferPool × List ℕ
release pool s =
    let (pool', out) = BufferPool.free pool s.block in
    if s.is_pooled
    then (pool', elim out [ none ↦ [] | some block ↦ block ∷ [] ])
    else (pool, s.block ∷ [])

unfoldable pub release_all : BufferPool → List Segment → BufferPool × List ℕ
unfolding release
release_all pool [] = (pool, [])
release_all pool (s ∷ ss) =
    let (pool', out) = release pool s in
    let (pool'', out') = release_all pool' ss in (pool'', out ++ out')

-- The destructor.
unfoldable pub destroy : SmartCapnpBuilder → BufferPool → BufferPool × List ℕ
unfolding release_all
destroy b pool =
    if not b.invalidated && b.returned_first_segment
    then release_all pool
        ((if b.own_first_segment then b.first_segment ∷ [] else []) ++ b.more_segments)
    else (pool, [])

-- `table[i + 1] = segments[i].size()` from the segment `i` on.
unfoldable pub write_sizes : List ℕ → ℕ → List (List ℕ) → List ℕ
write_sizes buf i [] = buf
write_sizes buf i (s ∷ ss) =
    write_sizes (write buf (4 * (i + 1)) (to_bytes 4 (length s % 2 ^ 32))) (i + 1) ss

-- The bytes of the words of a segment.
abbrev pub words_bytes : List ℕ → List ℕ
words_bytes [] = []
words_bytes (w ∷ ws) = to_bytes 8 w ++ words_bytes ws

-- The loop that copies the segments, with `dst` an offset in bytes.
unfoldable pub write_segments : List ℕ → ℕ → List (List ℕ) → List ℕ
write_segments buf dst [] = buf
write_segments buf dst (s ∷ ss) =
    write_segments (write buf dst (words_bytes s)) (dst + length s * word_size) ss

-- `buildSmartMessage`, into the memory of the message.
unfoldable pub build_smart_message : List ℕ → List (List ℕ) → List ℕ
unfolding write_sizes write_segments
build_smart_message buf segments =
    let count = length segments in
    let table = write_sizes (write buf 0 (to_bytes 4 ((count + 2 ^ 32 - 1) % 2 ^ 32))) 0 segments in
    let padded = if count % 2 == 0 then write table (4 * (count + 1)) (to_bytes 4 0) else table in
    write_segments padded ((count / 2 + 1) * word_size) segments

module _ (serialized_size : List (List ℕ) → ℕ) where
  -- `build`: in a buffer of the pool if the message fits one, else in memory of zmq. `content` is
  -- what that memory holds before. The message, and the pool.
  unfoldable pub build : List (List ℕ) → BufferPool → ℕ → (ℕ → List ℕ) → Message × BufferPool
  build segments pool fallback content =
      let message_size = serialized_size segments * word_size in
      let (buf, pool') = BufferPool.malloc pool fallback in
      let message = build_smart_message (content message_size) segments in
      if leb message_size pool.buffer_size then (message, pool') else (message, pool)

  -- `getSmartMessage`.
  unfoldable pub get_smart_message :
      SmartCapnpBuilder → List (List ℕ) → BufferPool → ℕ → (ℕ → List ℕ) → MessageVector × BufferPool
  get_smart_message b segments pool fallback content =
      let (message, pool') = build segments pool fallback content in
      (to_bytes 8 b.id ∷ message ∷ [], pool')
