-- ===== src/BufferPool/Tests.antt =====
-- The pool of two buffers of eight bytes at address 100, run by hand, and the theorems at it.
use general_tools.Common.{◌≡◌, refl, false, [], ◌∷◌, ◌++◌, some, none, arith}
use mathlib.Core.List.{Perm, Nodup}
use general_tools.BufferPool.{BufferPool, buffers, init, empty, malloc, calloc, free, zmq_free}
use general_tools.BufferPool.Invariant.{IsValid, init-IsValid}
use general_tools.BufferPool.Queue.{available, window}
use general_tools.BufferPool.Ownership.{
  System, takes, gives_back, Reach, here, next, start, history_lem,
}

abbrev two : BufferPool
unfolding init
two = init 100 8 2 false

abbrev one_out : BufferPool
unfolding malloc
one_out = (malloc two 7).1

two-IsValid : IsValid two
unfolding two
two-IsValid = init-IsValid 100 8 2 false (omega arith)

malloc_runs : ((malloc two 7).0 ≡ 100) × ((malloc one_out 7).0 ≡ 108)
unfolding malloc init
malloc_runs = (refl, refl)

drained_runs : (malloc (malloc one_out 7).1 7).0 ≡ 7
unfolding malloc init
drained_runs = refl

free_runs : (available (free one_out 100).0 ≡ 108 ∷ 100 ∷ []) × ((free one_out 500).1 ≡ some 500)
unfolding malloc init free window
free_runs = (refl, refl)

calloc_runs : ((calloc two (λ a. 9) 7).2 107 ≡ 0) × ((calloc two (λ a. 9) 7).2 108 ≡ 9)
unfolding calloc init
calloc_runs = (refl, refl)

zmq_free_runs : (zmq_free 100 one_out).1 ≡ none
unfolding zmq_free init malloc
zmq_free_runs = refl

abbrev served : System
served = record { pool = (free one_out 100).0; lent = [] }

served-Reach : Reach (start 100 8 2 false) served
unfolding two one_out
served-Reach =
    next (next here (takes (start 100 8 2 false) 7 (unfold empty init in refl)))
      (gives_back (record { pool = one_out; lent = 100 ∷ [] }) [] [] 100 refl)

history_lem_example :
    Perm (available served.pool ++ served.lent) (buffers 100 8 0 2)
    × Nodup (available served.pool ++ served.lent)
history_lem_example =
    history_lem 100 8 2 false (omega arith) (omega arith) (omega arith) served-Reach
