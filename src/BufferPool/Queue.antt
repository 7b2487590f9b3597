-- ===== src/BufferPool/Queue.antt =====
-- The free buffers of a pool as a queue, the abstract view of the ring.
use native.Mathlib.Nat.{mod-eq_of_lt}
use general_tools.Common.{
  ℕ, zero, suc, ◌+◌, ◌-◌, ◌*◌, ◌%◌, ◌^◌, ◌≤◌, ◌<◌, ◌≡◌, ◌≢◌, refl, ap, ap₂, subst, Bool, true,
  false, arith, ◌==◌, ◌↔◌, length, length-append, append_assoc, get_or, set, get_or-set_self,
  get_or-set_ne, ltb, if◌then◌else◌, List, [], ◌∷◌, ◌++◌, none,
}
use general_tools.BufferPool.{BufferPool, next, buffers, init, remaining, empty, full, malloc, free}
use general_tools.BufferPool.Invariant.{IsValid, mod_once}

-- The `k` entries of a ring of `n` slots from slot `h` on.
unfoldable pub window : List ℕ → ℕ → ℕ → ℕ → List ℕ
window ring n h zero = []
window ring n h (suc k) = get_or ring h 0 ∷ window ring n ((h + 1) % n) k

pub length-window : (ring : List ℕ) (n h k : ℕ) → length (window ring n h k) ≡ k
unfolding window
length-window ring n h zero = refl
length-window ring n h (suc k) = ap suc (length-window ring n ((h + 1) % n) k)

-- The number of slots from the head to the tail.
abbrev pub free_count : BufferPool → ℕ
free_count p = if ltb p.tail p.head then p.tail + (p.buffer_count + 1) - p.head else p.tail - p.head

-- The free buffers, in the order in which `malloc` will hand them out.
abbrev pub available : BufferPool → List ℕ
available p = window p.ptrs (p.buffer_count + 1) p.head (free_count p)

pub length-available : (p : BufferPool) → length (available p) ≡ free_count p
length-available p = length-window p.ptrs (p.buffer_count + 1) p.head (free_count p)

window-step :
    (ring : List ℕ) (n h k : ℕ)
    → 0 < k
    → window ring n h k ≡ get_or ring h 0 ∷ window ring n ((h + 1) % n) (k - 1)
unfolding window
window-step ring n h zero p = absurd (omega arith)
window-step ring n h (suc k) p =
    ap (λ j. get_or ring h 0 ∷ window ring n ((h + 1) % n) j) (omega arith)

-- A slot that the window does not reach can be written without changing it; one past its end
-- extends it.
window-set :
    (ring : List ℕ) (n x k h i : ℕ)
    → n ≤ length ring
    → h < n
    → k < n
    → i ≡ (h + k) % n
    → window (set ring i x) n h (suc k) ≡ window ring n h k ++ x ∷ []
unfolding window
window-set ring n x zero h i fits hh kk e =
    let here : i ≡ h = ground (arith, mod_once (h + 0) n) in
    ap (λ y. y ∷ []) (rw here (get_or-set_self ring h x 0 (omega arith)))
window-set ring n x (suc k) h i fits hh kk e =
    ap₂ ◌∷◌ (get_or-set_ne ring x 0 elsewhere)
      (window-set ring n x k ((h + 1) % n) i fits (omega arith) (omega arith) next_slot)
  where
    elsewhere : i ≢ h
    elsewhere = ground (arith, mod_once (h + suc k) n)

    next_slot : i ≡ ((h + 1) % n + k) % n
    next_slot =
        ground (arith, mod_once (h + suc k) n, mod_once (h + 1) n, mod_once ((h + 1) % n + k) n)

free_count-malloc :
    {p : BufferPool} (os : ℕ)
    → IsValid p
    → empty p ≡ false
    → (0 < free_count p) × (free_count (malloc p os).1 ≡ free_count p - 1)
unfolding malloc empty
free_count-malloc {p} os v ne = ground (arith, mod_once (p.head + 1) (p.buffer_count + 1))

tail-eq : {p : BufferPool} → IsValid p → p.tail ≡ (p.head + free_count p) % (p.buffer_count + 1)
tail-eq {p} v = ground (arith, mod_once (p.head + free_count p) (p.buffer_count + 1))

-- What `free` does with a pointer that lies in the pool.
pub put_back : BufferPool → ℕ → BufferPool
put_back p ptr = record p { ptrs = set p.ptrs p.tail ptr; tail = next p p.tail }

pub free-eq-put_back :
    (p : BufferPool) (ptr : ℕ) → (free p ptr).1 ≡ none → (free p ptr).0 ≡ put_back p ptr
unfolding free put_back
free-eq-put_back p ptr inside = ground arith

free_count-put_back :
    {p : BufferPool} (ptr : ℕ)
    → IsValid p
    → free_count p < p.buffer_count
    → free_count (put_back p ptr) ≡ suc (free_count p)
unfolding put_back
free_count-put_back {p} ptr v room = ground (arith, mod_once (p.tail + 1) (p.buffer_count + 1))

available-put_back :
    {p : BufferPool} (ptr : ℕ)
    → IsValid p
    → free_count p < p.buffer_count
    → available (put_back p ptr) ≡ available p ++ ptr ∷ []
available-put_back {p} ptr v room = rw (free_count-put_back ptr v room) (unfold put_back in extend)
  where
    extend :
        window (set p.ptrs p.tail ptr) (p.buffer_count + 1) p.head (suc (free_count p))
        ≡ available p ++ ptr ∷ []
    extend =
        window-set p.ptrs (p.buffer_count + 1) ptr (free_count p) p.head p.tail (omega arith)
          (omega arith) (omega arith) (tail-eq v)

-- `malloc` on a pool that is not empty returns the front of the queue and leaves the rest.
pub malloc-available :
    {p : BufferPool} (os : ℕ)
    → IsValid p
    → empty p ≡ false
    → available p ≡ (malloc p os).0 ∷ available (malloc p os).1
unfolding malloc empty
malloc-available {p} os v ne = ground (
  arith,
  window-step p.ptrs (p.buffer_count + 1) p.head (free_count p),
  free_count-malloc os v ne,
)

-- `free` of a pointer of the pool puts it at the end, as long as a slot is left.
pub free-available :
    {p : BufferPool} (ptr : ℕ)
    → IsValid p
    → free_count p < p.buffer_count
    → (free p ptr).1 ≡ none
    → available (free p ptr).0 ≡ available p ++ ptr ∷ []
free-available {p} ptr v room inside =
    rw (free-eq-put_back p ptr inside) (available-put_back ptr v room)

-- For a valid pool `empty()` holds exactly when no buffer is free, `full()` exactly when all are,
-- and `remaining()` is the number of free buffers unless there is none: then it is one more than
-- the number of all buffers.
pub queries_lem :
    {p : BufferPool}
    → IsValid p
    → ((empty p ≡ true) ↔ (length (available p) ≡ 0))
      × ((full p ≡ true) ↔ (length (available p) ≡ p.buffer_count))
      × (remaining p ≡ (
          if length (available p) == 0
          then (p.buffer_count + 1) % 2 ^ 16
          else length (available p)))
unfolding empty full remaining
queries_lem {p} v = ground (arith, length-available p, mod_once (p.tail + 1) (p.buffer_count + 1))

get_or-append :
    (before : List ℕ) (x : ℕ) (rest : List ℕ) → get_or (before ++ x ∷ rest) (length before) 0 ≡ x
get_or-append [] x rest = refl
get_or-append (y ∷ before) x rest = get_or-append before x rest

window-buffers :
    (pool size n i k : ℕ) (before : List ℕ)
    → length before ≡ i
    → i + k < n
    → window (before ++ (buffers pool size i k ++ 0 ∷ [])) n i k ≡ buffers pool size i k
unfolding window buffers
window-buffers pool size n i zero before e h = refl
window-buffers pool size n i (suc k) before e h =
    let later =
      window-buffers pool size n (i + 1) k (before ++ x ∷ [])
        (omega (arith, length-append before (x ∷ []))) (omega arith) in
    ap₂ ◌∷◌ (subst (λ j. get_or (before ++ x ∷ rest) j 0 ≡ x) e (get_or-append before x rest))
      (rw (mod-eq_of_lt {n = i + 1} {m = n} (omega arith)) (rw append_assoc at later))
  where
    x : ℕ
    x = pool + i * size

    rest : List ℕ
    rest = buffers pool size (i + 1) k ++ 0 ∷ []

-- A new pool offers all its buffers, in the order of their addresses.
pub available-init :
    (pool size count : ℕ) (single : Bool)
    → available (init pool size count single) ≡ buffers pool size 0 count
unfolding init
available-init pool size count single =
    ground (arith, window-buffers pool size (count + 1) 0 count [] refl)
