-- ===== src/BufferPool/Ownership.antt =====
-- A pool and its clients: the histories of `malloc` and `free`, and who holds which buffer.
use mathlib.Core.List.{
  Mem, Perm, Nodup, mem-cons, mem-append_right, mem-cons_self, not-mem-nil, perm_middle,
}
use mathlib.Core.List.{length as unary_length}
use mathlib.Core.List.Perm
use mathlib.Core.List.{Nodup-cons, Nodup-nil}
use mathlib.Core.Logic.Or
use mathlib.Core.HLevel.{×_prop}
use native.Mathlib.Bridge.{le_prop, from_ℕ}
use native.Mathlib.Nat.{mod-eq_of_lt}
use general_tools.Common.{
  append-nil, ℕ, zero, suc, ◌+◌, ◌*◌, ◌^◌, ◌≤◌, ◌<◌, ◌≡◌, refl, ap, ◌∙◌, sym, Bool, true, false,
  subst, arith, length, length-append, append_assoc, List, [], ◌∷◌, ◌++◌, some, none, ltb, leb,
  ◌||◌,
}
use general_tools.BufferPool.{BufferPool, buffers, init, empty, malloc, free}
use general_tools.BufferPool.Invariant.{
  IsValid, init-IsValid, malloc-IsValid, free-IsValid, length-buffers,
}
use general_tools.BufferPool.Queue.{
  available, free_count, length-available, malloc-available, free-available, available-init,
}

-- The pool, and the pool buffers that are in use.
pub record System : Type 0 where
  pub pool : BufferPool
  pub lent : List ℕ

-- `malloc` that takes a buffer, `malloc` that falls back to the operating system, `free` of a buffer
-- in use, and `free` of a block that is not the pool's.
pub data Step : System → System → Type 0 where
  takes :
      (s : System) (os : ℕ)
      → empty s.pool ≡ false
      → Step s (record { pool = (malloc s.pool os).1; lent = (malloc s.pool os).0 ∷ s.lent })
  falls_back :
      (s : System) (os : ℕ)
      → empty s.pool ≡ true
      → Step s (record s { pool = (malloc s.pool os).1 })
  gives_back :
      (s : System) (xs ys : List ℕ) (x : ℕ)
      → s.lent ≡ xs ++ x ∷ ys
      → Step s (record { pool = (free s.pool x).0; lent = xs ++ ys })
  frees_other :
      (s : System) (x : ℕ)
      → (ltb x s.pool.pool || leb (s.pool.pool + s.pool.pool_size) x) ≡ true
      → Step s (record s { pool = (free s.pool x).0 })

pub data Reach (s : System) : System → Type 0 where
  here : Reach s s
  next : {t u : System} → Reach s t → Step t u → Reach s u

abbrev pub start : ℕ → ℕ → ℕ → Bool → System
start base size count single = record { pool = init base size count single; lent = [] }

length-unary : (xs : List ℕ) → from_ℕ (unary_length xs) ≡ length xs
length-unary [] = refl
length-unary (x ∷ xs) = ap suc (length-unary xs)

length-perm : {xs ys : List ℕ} → Perm xs ys → length xs ≡ length ys
length-perm {xs} {ys} p = sym (length-unary xs) ∙ ap from_ℕ (Perm.length-eq p) ∙ length-unary ys

module _ (base size count : ℕ) where
  -- Every buffer of the pool is either free or in use, and none is both or twice.
  pub record Owned (s : System) : Type 0 where
    pub valid : IsValid s.pool
    pub base_eq : s.pool.pool ≡ base
    pub size_eq : s.pool.pool_size ≡ count * size
    pub count_eq : s.pool.buffer_count ≡ count
    pub all_buffers : Perm (available s.pool ++ s.lent) (buffers base size 0 count)

module _ (base size : ℕ) where
  pub mem-buffers :
      (x i k : ℕ)
      → Mem x (buffers base size i k)
      → (base + i * size ≤ x) × (x + size ≤ base + (i + k) * size)
  unfolding buffers
  mem-buffers x i zero m = absurd (not-mem-nil m)
  mem-buffers x i (suc k) m =
      Or.elim (×_prop le_prop le_prop) (mem-cons.0 m) (λ e. grind arith)
        (λ rest. let ih = mem-buffers x (i + 1) k rest in grind arith)

pub free-inside :
    (p : BufferPool) (x : ℕ) → p.pool ≤ x → x < p.pool + p.pool_size → (free p x).1 ≡ none
unfolding free
free-inside p x lo hi = ground arith

pub fields-malloc :
    (p : BufferPool) (os : ℕ)
    → ((malloc p os).1.pool ≡ p.pool)
      × ((malloc p os).1.pool_size ≡ p.pool_size)
      × ((malloc p os).1.buffer_count ≡ p.buffer_count)
unfolding malloc
fields-malloc p os = ground arith

pub fields-free :
    (p : BufferPool) (x : ℕ)
    → ((free p x).0.pool ≡ p.pool)
      × ((free p x).0.pool_size ≡ p.pool_size)
      × ((free p x).0.buffer_count ≡ p.buffer_count)
unfolding free
fields-free p x = ground arith

pub malloc-empty : (p : BufferPool) (os : ℕ) → empty p ≡ true → malloc p os ≡ (os, p)
unfolding malloc empty
malloc-empty p os e = rw e

pub free-outside :
    (p : BufferPool) (x : ℕ)
    → (ltb x p.pool || leb (p.pool + p.pool_size) x) ≡ true
    → free p x ≡ (p, some x)
unfolding free
free-outside p x e = rw e

Owned-start :
    (base size count : ℕ) (single : Bool)
    → count < 2 ^ 16
    → count * size < 2 ^ 64
    → Owned base size count (start base size count single)
unfolding init
Owned-start base size count single c h = record {
  valid = init-IsValid base size count single c;
  base_eq = refl;
  size_eq = mod-eq_of_lt h;
  count_eq = refl;
  all_buffers =
      rw (append-nil, available-init base size count single)
        (Perm.refl (buffers base size 0 count));
}

module _ {base size count : ℕ} (sized : 0 < size) where
  -- A buffer in use is one of the pool, and then the free queue has room for it.
  room :
      {s : System} (xs ys : List ℕ) (x : ℕ)
      → Owned base size count s
      → s.lent ≡ xs ++ x ∷ ys
      → (free_count s.pool < s.pool.buffer_count) × ((free s.pool x).1 ≡ none)
  room {s} xs ys x o e = (
    omega (
      arith,
      o.count_eq,
      length-perm o.all_buffers,
      length-append (available s.pool) s.lent,
      length-available s.pool,
      length-buffers base size 0 count,
      ap length e,
      length-append xs (x ∷ ys),
    ),
    free-inside s.pool x (omega (arith, o.base_eq, bounds.0))
        (omega (arith, o.base_eq, o.size_eq, bounds.1)),
  )
    where
      found : Mem x (available s.pool ++ s.lent)
      found = mem-append_right (available s.pool) (rw e (mem-append_right xs mem-cons_self))

      bounds : (base + 0 * size ≤ x) × (x + size ≤ base + (0 + count) * size)
      bounds = mem-buffers base size x 0 count ((Perm.mem_iff o.all_buffers).0 found)

  Step-Owned : {s t : System} → Step s t → Owned base size count s → Owned base size count t
  Step-Owned (takes s os more) o = record {
    valid = malloc-IsValid os o.valid;
    base_eq = (fields-malloc s.pool os).0 ∙ o.base_eq;
    size_eq = (fields-malloc s.pool os).1 ∙ o.size_eq;
    count_eq = (fields-malloc s.pool os).2 ∙ o.count_eq;
    all_buffers = Perm.trans (perm_middle (available (malloc s.pool os).1) s.lent) (
        subst (λ l. Perm (l ++ s.lent) (buffers base size 0 count))
          (malloc-available os o.valid more) o.all_buffers);
  }
  Step-Owned (falls_back s os none_left) o = rw (malloc-empty s.pool os none_left) o
  Step-Owned (gives_back s xs ys x e) o = record {
    valid = free-IsValid x o.valid;
    base_eq = (fields-free s.pool x).0 ∙ o.base_eq;
    size_eq = (fields-free s.pool x).1 ∙ o.size_eq;
    count_eq = (fields-free s.pool x).2 ∙ o.count_eq;
    all_buffers = rw (free-available x o.valid (room xs ys x o e).0 (room xs ys x o e).1) (
        Perm.trans
          (rw append_assoc (Perm.append_left (available s.pool) (Perm.symm (perm_middle xs ys))))
          (subst (λ l. Perm (available s.pool ++ l) (buffers base size 0 count)) e o.all_buffers));
  }
  Step-Owned (frees_other s x out) o = rw (free-outside s.pool x out) o

  Reach-Owned : {s t : System} → Reach s t → Owned base size count s → Owned base size count t
  Reach-Owned here o = o
  Reach-Owned (next r st) o = Step-Owned st (Reach-Owned r o)

buffers-Nodup : (base size i k : ℕ) → 0 < size → Nodup (buffers base size i k)
unfolding buffers
buffers-Nodup base size i zero h = Nodup-nil
buffers-Nodup base size i (suc k) h = Nodup-cons.1 (
  (λ m. let b = mem-buffers base size (base + i * size) (i + 1) k m in absurd (grind arith)),
  buffers-Nodup base size (i + 1) k h,
)

-- In every history of a new pool whose clients free only buffers that they hold, and blocks that
-- are not the pool's, each buffer of the pool is at every moment either free or in use: the free
-- ones and those in use are together a permutation of all buffers, and no address is among them
-- twice. The history consists of `malloc` (with and without fallback) and `free` calls; buffers
-- have a size, and the pool's size fits `size_t`.
pub history_lem :
    (base size count : ℕ) (single : Bool) {t : System}
    → 0 < size
    → count < 2 ^ 16
    → count * size < 2 ^ 64
    → Reach (start base size count single) t
    → Perm (available t.pool ++ t.lent) (buffers base size 0 count)
      × Nodup (available t.pool ++ t.lent)
history_lem base size count single {t} sized fits fits' r = (
  owned.all_buffers,
  Perm.nodup (Perm.symm owned.all_buffers) (buffers-Nodup base size 0 count sized),
)
  where
    owned : Owned base size count t
    owned = Reach-Owned sized r (Owned-start base size count single fits fits')
