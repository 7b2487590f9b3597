-- ===== src/BufferPool/Invariant.antt =====
-- The representation invariant of `BufferPool`: the indices stay inside the pointer ring.
use native.Mathlib.Nat.{mod-eq_of_lt, mod-eq-sub-mod}
use native.Mathlib.Decide.{dec_lt}
use general_tools.Common.{
  ℕ, zero, suc, ◌+◌, ◌-◌, ◌%◌, ◌^◌, ◌≤◌, ◌<◌, ◌≡◌, refl, Bool, arith, length, length-append,
  length-set, ltb, if◌then◌else◌, [], ◌∷◌,
}
use general_tools.BufferPool.{BufferPool, buffers, init, malloc, free}

pub record IsValid (p : BufferPool) : Type 0 where
  pub slots : length p.ptrs ≡ p.buffer_count + 1
  pub count_fits : p.buffer_count < 2 ^ 16
  pub head_in : p.head ≤ p.buffer_count
  pub tail_in : p.tail ≤ p.buffer_count

pub length-buffers : (pool size i n : ℕ) → length (buffers pool size i n) ≡ n
unfolding buffers
length-buffers pool size i zero = refl
length-buffers pool size i (suc n) = omega (arith, length-buffers pool size (i + 1) n)

pub init-IsValid :
    (pool size count : ℕ) (single : Bool) → count < 2 ^ 16 → IsValid (init pool size count single)
unfolding init
init-IsValid pool size count single h =
    omega
      (arith, length-append (buffers pool size 0 count) (0 ∷ []), length-buffers pool size 0 count)

-- A number below twice the modulus, reduced.
pub mod_once : (x n : ℕ) → x < n + n → x % n ≡ (if ltb x n then x else x - n)
mod_once x n h = elim (dec_lt x n) [
  | yes p ↦ ground (arith, mod-eq_of_lt p)
  | no p ↦ ground (
    arith,
    mod-eq-sub-mod {n = x} {m = n} (omega arith),
    mod-eq_of_lt {n = x - n} {m = n} (omega arith),
  )
]

pub malloc-IsValid : {p : BufferPool} (os : ℕ) → IsValid p → IsValid (malloc p os).1
unfolding malloc
malloc-IsValid {p} os v = ground (arith, mod_once (p.head + 1) (p.buffer_count + 1))

pub free-IsValid : {p : BufferPool} (ptr : ℕ) → IsValid p → IsValid (free p ptr).0
unfolding free
free-IsValid {p} ptr v =
    ground (arith, mod_once (p.tail + 1) (p.buffer_count + 1), length-set p.ptrs p.tail ptr)
