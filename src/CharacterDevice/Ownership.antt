-- ===== src/CharacterDevice/Ownership.antt =====
-- The device as a client of its pool: which buffers of the pool wait in its queue.
use mathlib.Core.List.{Mem, Perm, Nodup, mem-append_right, mem-cons_self}
use mathlib.Core.List.Perm
use native.Mathlib.Nat.{mod-eq_of_lt}
use general_tools.Common.{
  ℕ, zero, suc, ◌+◌, ◌*◌, ◌^◌, ◌<◌, ◌≡◌, refl, ap, ◌∙◌, sym, Bool, true, false, ◌&&◌, subst, arith,
  List, [], ◌∷◌, ◌++◌, append_assoc, append-nil, All, Bool-cases, List-cases, Option, inl, inr,
  if◌then◌else◌, leb, ltb, ◌||◌,
}
use general_tools.BufferPool.{BufferPool, buffers, empty}
use general_tools.BufferPool
use general_tools.BufferPool.Queue.{available}
use general_tools.BufferPool.Ownership.{
  System, takes, falls_back, gives_back, frees_other, Reach, here, next, start, history_lem,
  mem-buffers, fields-malloc, fields-free, malloc-empty,
}
use general_tools.CharacterDevice.{
  SendBuffer, CharacterDevice, pooled, destroy, init, send_copy, on_send, of_pool, reset,
  exceeded_high_water_mark, is_sent, advance,
}

-- What happens to a device: a buffer is sent, with what the system's `malloc` would return and the copy
-- function, or the port has sent bytes, with its error code and their number.
pub data Event : Type 0 where
  sends_copy : ℕ → (ℕ → List ℕ) → Event
  sent : ℕ → ℕ → Event

abbrev pub after : CharacterDevice → Event → CharacterDevice
after d (sends_copy os copy) = (send_copy d os copy).0
after d (sent error n) = (on_send d error n).0

abbrev pub after_all : CharacterDevice → List Event → CharacterDevice
after_all d [] = d
after_all d (e ∷ es) = after_all (after d e) es

module _ (base size count : ℕ) where
  -- An address inside the pool's block.
  abbrev pub is_inside : ℕ → Bool
  is_inside x = leb base x && ltb x (base + count * size)

  -- The buffers of the pool in a queue, the last one first.
  abbrev pub held_in : List SendBuffer → List ℕ
  held_in [] = []
  held_in (b ∷ bs) = held_in bs ++ (if is_inside b.buffer then b.buffer ∷ [] else [])

  -- What the system's `malloc` returns lies outside of the pool, and is not null.
  abbrev pub IsOutside : Event → Type 0
  IsOutside (sends_copy os copy) = (is_inside os ≡ false) × (0 < os)
  IsOutside (sent error n) = Unit

  abbrev pub system_of : CharacterDevice → System
  system_of d = record { pool = d.pool; lent = held_in d.send_buffers }

  held_in-push :
      (bs : List SendBuffer) (b : SendBuffer)
      → held_in (bs ++ b ∷ []) ≡ (if is_inside b.buffer then b.buffer ∷ [] else []) ++ held_in bs
  held_in-push [] b = sym (append-nil (if is_inside b.buffer then b.buffer ∷ [] else []))
  held_in-push (c ∷ bs) b =
      ap (λ w. w ++ (if is_inside c.buffer then c.buffer ∷ [] else [])) (held_in-push bs b)
      ∙ append_assoc (if is_inside b.buffer then b.buffer ∷ [] else []) (held_in bs)
          (if is_inside c.buffer then c.buffer ∷ [] else [])

  -- A device that has been tracked from its start.
  record IsTracked (single : Bool) (d : CharacterDevice) : Type 0 where
    pub reach : Reach (start base size count single) (system_of d)
    pub base_eq : d.pool.pool ≡ base
    pub size_eq : d.pool.pool_size ≡ count * size
    pub from_pool : All (λ b. (b.owner ≡ pooled) × (0 < b.buffer)) d.send_buffers

  All-push :
      (bs : List SendBuffer) (b : SendBuffer)
      → All (λ b. (b.owner ≡ pooled) × (0 < b.buffer)) bs
      → (b.owner ≡ pooled) × (0 < b.buffer)
      → All (λ b. (b.owner ≡ pooled) × (0 < b.buffer)) (bs ++ b ∷ [])
  All-push [] b h p = (p, tt)
  All-push (c ∷ bs) b h p = (h.0, All-push bs b h.1 p)

  module _ (single : Bool) (based : 0 < base) (sized : 0 < size) (fits : count < 2 ^ 16)
      (fits' : count * size < 2 ^ 64) where
    -- What the pool hands out lies in its block.
    malloc-inside :
        (s : System) (os : ℕ)
        → Reach (start base size count single) s
        → empty s.pool ≡ false
        → is_inside (BufferPool.malloc s.pool os).0 ≡ true
    malloc-inside s os r more =
        let x = (BufferPool.malloc s.pool os).0 in
        let (all_buffers, distinct) =
          history_lem base size count single sized fits fits' (next r (takes s os more)) in
        let found : Mem x (buffers base size 0 count) =
          (Perm.mem_iff all_buffers).0
            (mem-append_right (available (BufferPool.malloc s.pool os).1) mem-cons_self) in
        let bounds = mem-buffers base size x 0 count found in ground (arith, bounds)

    -- The queue with one more buffer, of the pool or of the system.
    push-Tracked :
        (d : CharacterDevice) (b : SendBuffer) (os : ℕ)
        → b.owner ≡ pooled
        → b.buffer ≡ (BufferPool.malloc d.pool os).0
        → is_inside os ≡ false
        → 0 < os
        → IsTracked single d
        → IsTracked single (record d {
          pool = (BufferPool.malloc d.pool os).1;
          send_buffers = d.send_buffers ++ b ∷ [];
        })
    push-Tracked d b os own e out solid t = elim (Bool-cases (empty d.pool)) [
      | inl none_left ↦
          let gone = malloc-empty d.pool os none_left in
          let x : b.buffer ≡ os = e ∙ ap (λ p. p.0) gone in
          record {
            reach =
                subst (Reach (start base size count single))
                  (ap (λ l. record { pool = (BufferPool.malloc d.pool os).1; lent = l })
                    (sym (held_in-push d.send_buffers b ∙ rw (x, out) refl)))
                  (next t.reach (falls_back (system_of d) os none_left));
            base_eq = (fields-malloc d.pool os).0 ∙ t.base_eq;
            size_eq = (fields-malloc d.pool os).1 ∙ t.size_eq;
            from_pool = All-push d.send_buffers b t.from_pool (own, omega (arith, x, solid));
          }
      | inr more ↦
          let inside = malloc-inside (system_of d) os t.reach more in
          record {
            reach =
                subst (Reach (start base size count single))
                  (ap (λ l. record { pool = (BufferPool.malloc d.pool os).1; lent = l })
                    (sym (held_in-push d.send_buffers b ∙ rw (e, inside) refl)))
                  (next t.reach (takes (system_of d) os more));
            base_eq = (fields-malloc d.pool os).0 ∙ t.base_eq;
            size_eq = (fields-malloc d.pool os).1 ∙ t.size_eq;
            from_pool =
                All-push d.send_buffers b t.from_pool (own, ground (arith, e, inside, based));
          }
    ]

    send_copy-Tracked :
        (d : CharacterDevice) (os : ℕ) (copy : ℕ → List ℕ)
        → is_inside os ≡ false
        → 0 < os
        → IsTracked single d
        → IsTracked single (send_copy d os copy).0
    unfolding send_copy
    send_copy-Tracked d os copy out solid t = elim (Bool-cases (exceeded_high_water_mark d)) [
      | inl e ↦ rw e t
      | inr e ↦ rw e (
          push-Tracked d (reset (of_pool d.pool os).0 (copy (of_pool d.pool os).0.max_size)) os refl
            refl out solid t)
    ]

    destroy-pooled :
        (c : SendBuffer) (p : BufferPool)
        → c.owner ≡ pooled
        → 0 < c.buffer
        → destroy c p ≡ BufferPool.free p c.buffer
    unfolding destroy
    destroy-pooled c p own solid = ground (arith, own, solid)

    outside :
        (p : BufferPool) (x : ℕ)
        → p.pool ≡ base
        → p.pool_size ≡ count * size
        → is_inside x ≡ false
        → (ltb x p.pool || leb (p.pool + p.pool_size) x) ≡ true
    outside p x e e' h = rw (e, e') (ground (arith, h))

    -- The queue without its first buffer, which is given back.
    pop-Tracked :
        (d : CharacterDevice) (b c : SendBuffer) (bs : List SendBuffer)
        → d.send_buffers ≡ b ∷ bs
        → c.owner ≡ b.owner
        → c.buffer ≡ b.buffer
        → IsTracked single d
        → IsTracked single (record d { pool = (destroy c d.pool).0; send_buffers = bs })
    pop-Tracked d b c bs front own same t =
        let from = subst (All (λ b. (b.owner ≡ pooled) × (0 < b.buffer))) front t.from_pool in
        let back : (destroy c d.pool).0 ≡ (BufferPool.free d.pool b.buffer).0 =
          ap (λ q. q.0) (destroy-pooled c d.pool (own ∙ from.0.0) (omega (arith, same, from)))
          ∙ ap (λ x. (BufferPool.free d.pool x).0) same in
        let held : held_in d.send_buffers
            ≡ held_in bs ++ (if is_inside b.buffer then b.buffer ∷ [] else []) =
          ap held_in front in
        let reached : (s : System)
            → s.pool ≡ (BufferPool.free d.pool b.buffer).0
            → s.lent ≡ held_in bs ++ []
            → Reach (start base size count single) s
            → Reach (start base size count single)
                (record { pool = (destroy c d.pool).0; lent = held_in bs }) =
          λ s p l r.
            subst (Reach (start base size count single))
              (ap (λ x. record { pool = x; lent = s.lent }) (p ∙ sym back)
                ∙ ap (λ x. record { pool = (destroy c d.pool).0; lent = x })
                    (l ∙ append-nil (held_in bs)))
              r in
        record {
          reach = elim (Bool-cases (is_inside b.buffer)) [
            | inl e ↦
                let step = gives_back (system_of d) (held_in bs) [] b.buffer (held ∙ rw e refl) in
                reached _ refl refl (next t.reach step)
            | inr e ↦
                let step =
                  frees_other (system_of d) b.buffer
                    (outside d.pool b.buffer t.base_eq t.size_eq e) in
                reached _ refl (held ∙ rw e refl) (next t.reach step)
          ];
          base_eq = ap (λ p. p.pool) back ∙ (fields-free d.pool b.buffer).0 ∙ t.base_eq;
          size_eq = ap (λ p. p.pool_size) back ∙ (fields-free d.pool b.buffer).1 ∙ t.size_eq;
          from_pool = from.1;
        }

    -- The queue with other progress of its first buffer.
    same-Tracked :
        (d : CharacterDevice) (b c : SendBuffer) (bs : List SendBuffer)
        → d.send_buffers ≡ b ∷ bs
        → c.owner ≡ b.owner
        → c.buffer ≡ b.buffer
        → IsTracked single d
        → IsTracked single (record d { send_buffers = c ∷ bs })
    same-Tracked d b c bs front own same t =
        let from = subst (All (λ b. (b.owner ≡ pooled) × (0 < b.buffer))) front t.from_pool in
        record {
          reach =
              subst (Reach (start base size count single))
                (ap (λ l. record { pool = d.pool; lent = l })
                  (ap held_in front
                    ∙ ap (λ x. held_in bs ++ (if is_inside x then x ∷ [] else [])) (sym same)))
                t.reach;
          base_eq = t.base_eq;
          size_eq = t.size_eq;
          from_pool = ((own ∙ from.0.0, omega (arith, same, from)), from.1);
        }

    on_send-empty : (d : CharacterDevice) (n : ℕ) → d.send_buffers ≡ [] → (on_send d 0 n).0 ≡ d
    unfolding on_send
    on_send-empty d n e = ground (arith, e)

    on_send-pop :
        (d : CharacterDevice) (n : ℕ) (b : SendBuffer) (bs : List SendBuffer)
        → d.send_buffers ≡ b ∷ bs
        → is_sent (advance b n) ≡ true
        → (on_send d 0 n).0
          ≡ record d { pool = (destroy (advance b n) d.pool).0; send_buffers = bs }
    unfolding on_send
    on_send-pop d n b bs e done = ground (arith, e, done)

    on_send-more :
        (d : CharacterDevice) (n : ℕ) (b : SendBuffer) (bs : List SendBuffer)
        → d.send_buffers ≡ b ∷ bs
        → is_sent (advance b n) ≡ false
        → (on_send d 0 n).0 ≡ record d { send_buffers = advance b n ∷ bs }
    unfolding on_send
    on_send-more d n b bs e more = ground (arith, e, more)

    on_send-Tracked :
        (d : CharacterDevice) (error n : ℕ)
        → IsTracked single d
        → IsTracked single (on_send d error n).0
    on_send-Tracked d (suc error) n t = unfold on_send in t
    on_send-Tracked d zero n t = elim (List-cases d.send_buffers) [
      | inl e ↦ subst (IsTracked single) (sym (on_send-empty d n e)) t
      | inr (b, bs, e) ↦ elim (Bool-cases (is_sent (advance b n))) [
        | inl done ↦
            subst (IsTracked single) (sym (on_send-pop d n b bs e done))
              (pop-Tracked d b (advance b n) bs e refl refl t)
        | inr more ↦
            subst (IsTracked single) (sym (on_send-more d n b bs e more))
              (same-Tracked d b (advance b n) bs e refl refl t)
      ]
    ]

    after_all-Tracked :
        (es : List Event) (d : CharacterDevice)
        → All IsOutside es
        → IsTracked single d
        → IsTracked single (after_all d es)
    after_all-Tracked [] d out t = t
    after_all-Tracked (sends_copy os copy ∷ es) d out t =
        after_all-Tracked es (send_copy d os copy).0 out.1
          (send_copy-Tracked d os copy out.0.0 out.0.1 t)
    after_all-Tracked (sent error n ∷ es) d out t =
        after_all-Tracked es (on_send d error n).0 out.1 (on_send-Tracked d error n t)

-- In every history of a new device, of copies that are sent and of buffers that the port has sent or
-- failed to send, each buffer of the pool is at every moment either free or in the queue: the free ones
-- and those in the queue are together a permutation of all buffers, and no address is among them twice.
-- The pool starts behind address 0, its buffers have a size, it fits `size_t`, and what the system's
-- `malloc` returns is not null and lies outside of it.
pub device_history :
    (base size count : ℕ) (single : Bool) (receive_handler error_handler : Option ℕ)
    (es : List Event)
    → 0 < base
    → 0 < size
    → count < 2 ^ 16
    → count * size < 2 ^ 64
    → All (IsOutside base size count) es
    → let d =
        after_all
          (init (BufferPool.init base size count single) receive_handler error_handler)
          es in
      Perm (available d.pool ++ held_in base size count d.send_buffers) (buffers base size 0 count)
      × Nodup (available d.pool ++ held_in base size count d.send_buffers)
unfolding init BufferPool.init
device_history base size count single rh eh es based sized fits fits' out =
    let d = init (BufferPool.init base size count single) rh eh in
    history_lem base size count single sized fits fits'
      (after_all-Tracked base size count single based sized fits fits' es d out (record {
        reach = here;
        base_eq = refl;
        size_eq = mod-eq_of_lt fits';
        from_pool = tt;
      })).reach
