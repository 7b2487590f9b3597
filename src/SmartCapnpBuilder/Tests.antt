-- ===== src/SmartCapnpBuilder/Tests.antt =====
-- A builder on a pool of two buffers, and the theorems at it.
use mathlib.Core.List.{Perm}
use mathlib.Core.List.Perm
use general_tools.Common.{ℕ, zero, suc, ◌≡◌, refl, true, false, List, [], ◌∷◌}
use general_tools.BufferPool.{BufferPool, Memory}
use general_tools.BufferPool
use general_tools.BufferPool.Ownership.{Reach}
use general_tools.SmartCapnpBuilder.{
  release_all, SmartCapnpBuilder, init, move, destroy, build_smart_message,
}
use general_tools.SmartCapnpBuilder.Frame.{framed, build_smart_message-framed}
use general_tools.SmartCapnpBuilder.Segments.{owned_segments, destroy-Reach}

abbrev pool : BufferPool
unfolding BufferPool.init
pool = BufferPool.init 100 8 2 false

abbrev builder : SmartCapnpBuilder
unfolding init
builder = init pool

abbrev nines : Memory
nines a = 9

-- A builder that has a pooled segment and one of the system.
abbrev used : SmartCapnpBuilder
used = record builder {
  returned_first_segment = true;
  first_segment = record { block = 100; is_pooled = true };
  more_segments = record { block = 900; is_pooled = false } ∷ [];
}

abbrev taken : BufferPool
unfolding BufferPool.malloc
taken = (BufferPool.malloc pool 7).1

abbrev nothing : ℕ → List ℕ
nothing zero = []
nothing (suc n) = 0 ∷ nothing n

abbrev segments : List (List ℕ)
segments = (7 ∷ 8 ∷ []) ∷ (9 ∷ []) ∷ []

move_runs : ((move used).0.invalidated ≡ true) × ((move used).1.more_segments ≡ [])
unfolding move
move_runs = (refl, refl)

build_smart_message-framed_example : build_smart_message (nothing 40) segments ≡ framed segments
build_smart_message-framed_example = build_smart_message-framed (nothing 40) segments refl

destroy-Reach_example :
    (left : List ℕ) × (Perm left [])
    × (Reach
        (record { pool = taken; lent = 100 ∷ [] })
        (record { pool = (destroy used taken).0; lent = left }))
    × ((destroy used taken).1 ≡ 900 ∷ [])
    × (destroy (move used).0 taken ≡ (taken, []))
    × (owned_segments (move used).0 ≡ owned_segments used)
    × (destroy (move used).1 taken ≡ release_all taken (used.first_segment ∷ []))
unfolding builder taken pool
destroy-Reach_example = destroy-Reach used taken (100 ∷ []) [] refl (λ e. cc) (Perm.refl (100 ∷ []))
