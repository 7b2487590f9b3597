-- ===== src/CharacterDevice/Stream.antt =====
-- The device as a stream: the bytes that wait in its queue.
use general_tools.Common.{
  drop-drop, drop-append_le, drop-all, ℕ, zero, suc, ◌+◌, ◌-◌, ◌*◌, ◌≤◌, ◌<◌, ◌≡◌, ◌≢◌, refl, ap,
  sym, subst, ◌∙◌, false, List, [], ◌∷◌, ◌++◌, length, take, drop, is_empty, length-append,
  length-drop, take-append-drop, append_assoc, append-nil, arith,
}
use general_tools.BufferPool
use general_tools.CharacterDevice.{
  SendBuffer, CharacterDevice, Action, pooled, destroy, sends, cbuffer, send_copy, send_parts, send,
  on_send,
}

-- The bytes that wait in the queue.
abbrev pub pending_of : List SendBuffer → List ℕ
pending_of [] = []
pending_of (b ∷ bs) = cbuffer b ++ pending_of bs

abbrev pub pending : CharacterDevice → List ℕ
pending d = pending_of d.send_buffers

pending_of-append :
    (bs : List SendBuffer) (b : SendBuffer) → pending_of (bs ++ b ∷ []) ≡ pending_of bs ++ cbuffer b
pending_of-append [] b = append-nil (cbuffer b)
pending_of-append (c ∷ bs) b =
    ap (◌++◌ (cbuffer c)) (pending_of-append bs b)
    ∙ sym (append_assoc (cbuffer c) (pending_of bs) (cbuffer b))

send_copy-lem :
    (d : CharacterDevice) (os : ℕ) (copy : ℕ → List ℕ)
    → length d.send_buffers < d.high_water_mark
    → let d' = (send_copy d os copy).0 in
      (pending d' ≡ pending d ++ copy d.pool.buffer_size)
      × (length d'.send_buffers ≡ length d.send_buffers + 1)
      × (d'.high_water_mark ≡ d.high_water_mark)
      × (d'.pool.buffer_size ≡ d.pool.buffer_size)
unfolding send_copy BufferPool.malloc
send_copy-lem d os copy room = ground (
  arith,
  pending_of-append d.send_buffers (record {
    owner = pooled;
    buffer = (BufferPool.malloc d.pool os).0;
    max_size = d.pool.buffer_size;
    bytes = copy d.pool.buffer_size;
    pos = 0;
  }),
  length-append d.send_buffers (
      record {
        owner = pooled;
        buffer = (BufferPool.malloc d.pool os).0;
        max_size = d.pool.buffer_size;
        bytes = copy d.pool.buffer_size;
        pos = 0;
      }
      ∷ []),
)

length-nil : (bytes : List ℕ) → length bytes ≡ 0 → bytes ≡ []
length-nil [] e = refl
length-nil (b ∷ bytes) e = absurd (omega (arith, e))

send_parts-pending :
    (fuel room : ℕ) (d : CharacterDevice) (os : ℕ → ℕ) (bytes : List ℕ)
    → length bytes ≤ fuel
    → 0 < d.pool.buffer_size
    → length d.send_buffers + room ≤ d.high_water_mark
    → length bytes ≤ room * d.pool.buffer_size
    → pending (send_parts fuel d os bytes).0 ≡ pending d ++ bytes
unfolding send_parts
send_parts-pending zero room d os bytes enough size mark fits =
    rw (length-nil bytes (omega arith)) (sym (append-nil (pending d)))
send_parts-pending (suc fuel) room d os [] enough size mark fits = sym (append-nil (pending d))
send_parts-pending (suc fuel) zero d os (x ∷ bytes) enough size mark fits = absurd (omega arith)
send_parts-pending (suc fuel) (suc room) d os (x ∷ bytes) enough size mark fits =
    let one = send_copy-lem d (os fuel) (λ n. take n (x ∷ bytes)) (omega arith) in
    let d' = (send_copy d (os fuel) (λ n. take n (x ∷ bytes))).0 in
    let rest = drop d.pool.buffer_size (x ∷ bytes) in
    let same : length rest ≡ length (x ∷ bytes) - d.pool.buffer_size =
      length-drop d.pool.buffer_size (x ∷ bytes) in
    let product : suc room * d.pool.buffer_size ≡ d.pool.buffer_size + room * d.pool.buffer_size =
      omega arith in
    let room' : length rest ≤ room * d.pool.buffer_size = omega (arith, same, product, fits) in
    let fits' : length rest ≤ room * d'.pool.buffer_size =
      subst (λ n. length rest ≤ room * n) (sym one.3) room' in
    let later =
      send_parts-pending fuel room d' os rest (omega (arith, same)) (omega (arith, one))
        (omega (arith, one)) fits' in
    later
    ∙ ap (λ w. w ++ rest) one.0
    ∙ append_assoc (pending d) (take d.pool.buffer_size (x ∷ bytes)) rest
    ∙ ap (◌++◌ (pending d)) (take-append-drop d.pool.buffer_size (x ∷ bytes))

-- The bytes of the next transmission, if a buffer is left.
abbrev pub next_sends : CharacterDevice → List Action
next_sends d = elim d.send_buffers [ [] ↦ [] | b ∷ bs ↦ sends (cbuffer b) ∷ [] ]

-- When the port has sent `n` bytes of the first buffer, exactly these bytes leave the front of the
-- stream, and if a buffer is left, what is left of the first one is sent next.
pub on_send_lem :
    (d : CharacterDevice) (b : SendBuffer) (bs : List SendBuffer) (n : ℕ)
    → d.send_buffers ≡ b ∷ bs
    → n ≤ length (cbuffer b)
    → let (d', actions) = on_send d 0 n in
      (pending d' ≡ drop n (pending d)) × (actions ≡ next_sends d')
unfolding on_send destroy
on_send_lem d b bs n front sent =
    let front-drop = drop-append_le n (cbuffer b) (pending_of bs) sent in
    let in-buffer = drop-drop b.pos n b.bytes in
    ground (arith, front-drop, in-buffer, drop-all (b.pos + n) b.bytes)

pub send_copy-busy :
    (d : CharacterDevice) (os : ℕ) (copy : ℕ → List ℕ)
    → is_empty d.send_buffers ≡ false
    → ((send_copy d os copy).1 ≡ []) × (is_empty (send_copy d os copy).0.send_buffers ≡ false)
unfolding send_copy BufferPool.malloc
send_copy-busy d os copy busy = ground (
  arith,
  append-busy d.send_buffers (record {
    owner = pooled;
    buffer = (BufferPool.malloc d.pool os).0;
    max_size = d.pool.buffer_size;
    bytes = copy d.pool.buffer_size;
    pos = 0;
  }),
)
  where
    append-busy :
        (bs : List SendBuffer) (c : SendBuffer)
        → is_empty bs ≡ false
        → is_empty (bs ++ c ∷ []) ≡ false
    append-busy [] c e = cc
    append-busy (b ∷ bs) c e = refl

pub send_parts-busy :
    (fuel : ℕ) (d : CharacterDevice) (os : ℕ → ℕ) (bytes : List ℕ)
    → is_empty d.send_buffers ≡ false
    → ((send_parts fuel d os bytes).1 ≡ [])
      × (is_empty (send_parts fuel d os bytes).0.send_buffers ≡ false)
unfolding send_parts
send_parts-busy zero d os bytes busy = (refl, busy)
send_parts-busy (suc fuel) d os bytes busy =
    let first = send_copy-busy d (os fuel) (λ size. take size bytes) busy in
    let later =
      send_parts-busy fuel (send_copy d (os fuel) (λ size. take size bytes)).0 os
        (drop d.pool.buffer_size bytes) first.1 in
    ground (arith, first, later, busy)

send-busy :
    (d : CharacterDevice) (os : ℕ → ℕ) (bytes : List ℕ)
    → is_empty d.send_buffers ≡ false
    → ((send d os bytes).1 ≡ []) × (is_empty (send d os bytes).0.send_buffers ≡ false)
unfolding send
send-busy d os bytes busy = ground (arith, busy, send_parts-busy (length bytes) d os bytes busy)

-- Calls of `send` one after another, with what the system's `malloc` returns in each, and all that the
-- device starts then.
abbrev pub send_all : CharacterDevice → List ((ℕ → ℕ) × List ℕ) → CharacterDevice × List Action
send_all d [] = (d, [])
send_all d ((os, bytes) ∷ calls) =
    let (d', actions) = send d os bytes in
    let (d'', later) = send_all d' calls in (d'', actions ++ later)

send_all-busy :
    (d : CharacterDevice) (calls : List ((ℕ → ℕ) × List ℕ))
    → is_empty d.send_buffers ≡ false
    → (send_all d calls).1 ≡ []
send_all-busy d [] busy = refl
send_all-busy d ((os, bytes) ∷ calls) busy =
    let first = send-busy d os bytes busy in
    let later = send_all-busy (send d os bytes).0 calls first.1 in ground (arith, first, later)

-- After a send error with bytes left to send the device stalls: neither the error nor any number of
-- calls of `send` after it, with any bytes, starts a transmission.
pub send_error_stalls :
    (d : CharacterDevice) (error n : ℕ) (calls : List ((ℕ → ℕ) × List ℕ))
    → error ≢ 0
    → is_empty d.send_buffers ≡ false
    → let (d', actions) = on_send d error n in (actions ≡ []) × ((send_all d' calls).1 ≡ [])
unfolding on_send
send_error_stalls d zero n calls e left = absurd (e refl)
send_error_stalls d (suc error) n calls e left = (refl, send_all-busy d calls left)

-- `send` puts all its bytes at the end of the stream, in order, if the buffers that they need are
-- free below the high water mark: `room` of them are, and the bytes fit into them.
pub send_lem :
    (d : CharacterDevice) (room : ℕ) (os : ℕ → ℕ) (bytes : List ℕ)
    → 0 < d.pool.buffer_size
    → 0 < room
    → length d.send_buffers + room ≤ d.high_water_mark
    → length bytes ≤ room * d.pool.buffer_size
    → pending (send d os bytes).0 ≡ pending d ++ bytes
unfolding send
send_lem d room os bytes size some_room mark fits =
    let sent = send_parts-pending (length bytes) room d os bytes (omega arith) size mark fits in
    ground (arith, sent)
