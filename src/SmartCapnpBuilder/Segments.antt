-- ===== src/SmartCapnpBuilder/Segments.antt =====
-- The segments of a builder: what is allocated, and what becomes of it.
use mathlib.Core.List.{Mem, Perm, mem-cons, mem-cons_self, Mem-prop, not-mem-nil, perm_middle}
use mathlib.Core.List.Perm
use mathlib.Core.Logic.Or
use general_tools.Common.{
  Bool-cases, inl, inr, ℕ, ◌+◌, ◌*◌, ◌≤◌, ◌<◌, ◌≡◌, ◌≢◌, refl, sym, append-nil, ap, subst, ◌∙◌,
  Bool, true, false, not, ◌&&◌, ◌||◌, List, [], ◌∷◌, ◌++◌, if◌then◌else◌, leb, ltb, ◌==◌, max, ok,
  is_ok, ok-result, arith,
}
use general_tools.BufferPool.{BufferPool, Memory, malloc, calloc, free}
use general_tools.BufferPool.Ownership.{System, Step, gives_back, Reach, here, next, fields-free}
use general_tools.SmartCapnpBuilder.{
  Segment, SmartCapnpBuilder, Allocated, allocate_block, allocate_segment, release, release_all,
  destroy, move,
}

allocate_segment-ok :
    (b : SmartCapnpBuilder) (pool : BufferPool) (memory : Memory) (fallback os minimum_size : ℕ)
    → os ≢ 0
    → is_ok (allocate_segment b pool memory fallback os minimum_size) ≡ true
unfolding allocate_segment allocate_block calloc malloc
allocate_segment-ok b pool memory fallback os minimum_size system = ground arith

allocated-zero :
    (b : SmartCapnpBuilder) (pool : BufferPool) (memory : Memory)
    (fallback os minimum_size offset : ℕ) (r : Allocated)
    → b.own_first_segment ≡ true
    → offset < max minimum_size b.next_size * 8
    → allocate_segment b pool memory fallback os minimum_size ≡ ok r
    → (minimum_size ≤ r.words.count)
      × (b.next_size ≤ r.words.count)
      × (r.memory (r.words.start + offset) ≡ 0)
unfolding allocate_segment allocate_block calloc malloc
allocated-zero b pool memory fallback os minimum_size offset r own inside done = ground arith

-- A segment for capnp is large enough and all zero: for a builder with a first segment of its own,
-- when the system has memory, `allocateSegment` returns words that are at least as many as asked for,
-- and every byte of them is 0, whether the block is one of the pool, the pool's own fallback or the
-- system's.
pub allocate_segment-zeroed :
    (b : SmartCapnpBuilder) (pool : BufferPool) (memory : Memory)
    (fallback os minimum_size offset : ℕ)
    → b.own_first_segment ≡ true
    → os ≢ 0
    → offset < max minimum_size b.next_size * 8
    → (r : Allocated) × (allocate_segment b pool memory fallback os minimum_size ≡ ok r)
      × (minimum_size ≤ r.words.count)
      × (b.next_size ≤ r.words.count)
      × (r.memory (r.words.start + offset) ≡ 0)
allocate_segment-zeroed b pool memory fallback os minimum_size offset own system inside =
    let (r, done) =
      ok-result (allocate_segment b pool memory fallback os minimum_size)
        (allocate_segment-ok b pool memory fallback os minimum_size system) in
    let facts = allocated-zero b pool memory fallback os minimum_size offset r own inside done in
    (r, done, facts.0, facts.1, facts.2)

-- The blocks of segments that count as pooled and lie in the pool, and the other ones.
abbrev pub in_pool : ℕ → ℕ → Segment → Bool
in_pool base size s = s.is_pooled && not (ltb s.block base || leb (base + size) s.block)

abbrev pub pooled_blocks : ℕ → ℕ → List Segment → List ℕ
pooled_blocks base size [] = []
pooled_blocks base size (s ∷ ss) =
    let rest = pooled_blocks base size ss in if in_pool base size s then s.block ∷ rest else rest

abbrev pub system_blocks : ℕ → ℕ → List Segment → List ℕ
system_blocks base size [] = []
system_blocks base size (s ∷ ss) =
    let rest = system_blocks base size ss in if in_pool base size s then rest else s.block ∷ rest

-- The segments that a builder holds: the first one that it gave out, if it is its own, and the others.
abbrev pub owned_segments : SmartCapnpBuilder → List Segment
owned_segments b =
    (if b.returned_first_segment && b.own_first_segment then b.first_segment ∷ [] else [])
    ++ b.more_segments

split-Mem :
    (x : ℕ) (ys : List ℕ) → Mem x ys → (front : List ℕ) × (back : List ℕ) × (ys ≡ front ++ x ∷ back)
split-Mem x [] m = absurd (not-mem-nil m)
split-Mem x (y ∷ ys) m = elim (Bool-cases (x == y)) [
  | inl e ↦ ([], ys, ground (arith, e))
  | inr ne ↦
      let (front, back, q) =
        split-Mem x ys (Or.resolve_left Mem-prop (mem-cons.0 m) (λ e. ground (arith, e, ne))) in
      (y ∷ front, back, ap (◌∷◌ y) q)
]

Reach-first : {s t u : System} → Step s t → Reach t u → Reach s u
Reach-first st here = next here st
Reach-first st (next r last) = next (Reach-first st r) last

destroy-owned :
    (b : SmartCapnpBuilder) (pool : BufferPool)
    → b.invalidated ≡ false
    → (b.returned_first_segment ≡ false → b.more_segments ≡ [])
    → destroy b pool ≡ release_all pool (owned_segments b)
unfolding destroy
destroy-owned b pool valid first = elim (Bool-cases b.returned_first_segment) [
  | inl gave ↦ rw (valid, gave) refl
  | inr none_yet ↦ rw (valid, none_yet, first none_yet) (unfold release_all in refl)
]

module _ {base size : ℕ} where
  release_pooled :
      (pool : BufferPool) (s : Segment)
      → pool.pool ≡ base
      → pool.pool_size ≡ size
      → in_pool base size s ≡ true
      → release pool s ≡ ((free pool s.block).0, [])
  unfolding release free
  release_pooled pool s b z inside = ground arith

  release_other :
      (pool : BufferPool) (s : Segment)
      → pool.pool ≡ base
      → pool.pool_size ≡ size
      → in_pool base size s ≡ false
      → release pool s ≡ (pool, s.block ∷ [])
  unfolding release free
  release_other pool s b z outside = ground arith

  -- The clients of the pool hold `lent`, of which all but `others` are the segments `ss`.
  release_all-Reach :
      (pool : BufferPool) (lent others : List ℕ) (ss : List Segment)
      → pool.pool ≡ base
      → pool.pool_size ≡ size
      → Perm lent (pooled_blocks base size ss ++ others)
      → (left : List ℕ) × (Perm left others)
        × (Reach
            (record { pool = pool; lent = lent })
            (record { pool = (release_all pool ss).0; lent = left }))
        × ((release_all pool ss).1 ≡ system_blocks base size ss)
  unfolding release_all
  release_all-Reach pool lent others [] b z held = (lent, held, here, refl)
  release_all-Reach pool lent others (s ∷ ss) b z held = elim (Bool-cases (in_pool base size s)) [
    | inl inside ↦
        let fields = fields-free pool s.block in
        let held' : Perm lent (s.block ∷ pooled_blocks base size ss ++ others) =
          subst
            (λ c. Perm lent (
              (if c then s.block ∷ pooled_blocks base size ss else pooled_blocks base size ss)
              ++ others))
            inside held in
        let (front, back, q) =
          split-Mem s.block lent ((Perm.mem_iff (Perm.symm held')).0 mem-cons_self) in
        let kept : Perm (front ++ back) (pooled_blocks base size ss ++ others) = Perm.cons_inv (
          Perm.trans (Perm.symm (perm_middle front back))
            (subst (λ l. Perm l (s.block ∷ pooled_blocks base size ss ++ others)) q held')) in
        let (left, same, r, out) =
          release_all-Reach (free pool s.block).0 (front ++ back) others ss (fields.0 ∙ b)
            (fields.1 ∙ z) kept in
        rw (release_pooled pool s b z inside, inside)
          (
            left,
            same,
            Reach-first (gives_back (record { pool = pool; lent = lent }) front back s.block q) r,
            out,
          )
    | inr outside ↦
        let held' : Perm lent (pooled_blocks base size ss ++ others) =
          subst
            (λ c. Perm lent (
              (if c then s.block ∷ pooled_blocks base size ss else pooled_blocks base size ss)
              ++ others))
            outside held in
        let (left, same, r, out) = release_all-Reach pool lent others ss b z held' in
        rw (release_other pool s b z outside, outside) (left, same, r, ap (◌∷◌ s.block) out)
  ]

-- The destructor of a builder that was not made by a move returns what the builder holds, and nothing
-- else: when the buffers in use are those of the segments that it holds and `others`, its calls of `free`
-- are a history of the pool after which just the others are in use, and the system gets the blocks that
-- do not lie in the pool. A builder has further segments only once it gave out the first one. The builder
-- that is made by a move frees nothing, whatever it holds, and the one that was moved from has none but
-- the first segment left to free.
pub destroy-Reach :
    (b : SmartCapnpBuilder) (pool : BufferPool) (lent others : List ℕ)
    → b.invalidated ≡ false
    → (b.returned_first_segment ≡ false → b.more_segments ≡ [])
    → Perm lent (pooled_blocks pool.pool pool.pool_size (owned_segments b) ++ others)
    → (left : List ℕ) × (Perm left others)
      × (Reach
          (record { pool = pool; lent = lent })
          (record { pool = (destroy b pool).0; lent = left }))
      × ((destroy b pool).1 ≡ system_blocks pool.pool pool.pool_size (owned_segments b))
      × (destroy (move b).0 pool ≡ (pool, []))
      × (owned_segments (move b).0 ≡ owned_segments b)
      × (destroy (move b).1 pool
          ≡ release_all pool (
              if b.returned_first_segment && b.own_first_segment then b.first_segment ∷ [] else []))
unfolding move destroy
destroy-Reach b pool lent others valid first held =
    let whole = destroy-owned b pool valid first in
    let old = destroy-owned (move b).1 pool valid (λ e. refl) in
    let (left, same, r, out) =
      release_all-Reach pool lent others (owned_segments b) refl refl held in
    (
      left,
      same,
      subst (λ d. Reach (record { pool = pool; lent = lent }) (record { pool = d.0; lent = left }))
          (sym whole) r,
      ap (λ d. d.1) whole ∙ out,
      refl,
      refl,
      old
          ∙ ap (release_all pool) (
              append-nil (
                if b.returned_first_segment && b.own_first_segment
                then b.first_segment ∷ []
                else [])),
    )
