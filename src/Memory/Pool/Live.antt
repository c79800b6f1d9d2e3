-- ===== src/Memory/Pool/Live.antt =====
-- A pool in use: sequences of pool_alloc, pool_free, also of pointers that are no block, and writes of
-- its users into their blocks. A state is the pool, memory and the blocks given out, newest first.
use c_comprehensive_template.Prelude.{
  ℕ, suc, ◌+◌, ◌≤◌, ◌≡◌, ◌≢◌, refl, ap, sym, some, List, [], ◌∷◌, ◌++◌, length,
}
use c_comprehensive_template.Memory.Pool.{Ptr, Memory, store, Pool, alloc, free}
use c_comprehensive_template.Memory.Pool.Chain.{NotIn, Distinct, IsBlock, AllBlocks, IsPool}

pub record Live : Type 0 where
  pub pool : Pool
  pub mem : Memory
  pub used : List Ptr

-- pool_alloc, whose block its caller keeps, or NULL; pool_free of a block that is out, between xs
-- and ys in the list; pool_free of NULL or a pointer that is the start of no block; a write of 8 bytes
-- inside a block that is out.
pub data Step : Live → Live → Type 0 where
  allocates :
      (s : Live) (a : Ptr) (q : Pool)
      → alloc (some s.pool) s.mem ≡ (a, some q)
      → a ≢ 0
      → Step s (record { pool = q; mem = s.mem; used = a ∷ s.used })
  refuses :
      (s : Live) (q : Pool)
      → alloc (some s.pool) s.mem ≡ (0, some q)
      → Step s (record { pool = q; mem = s.mem; used = s.used })
  frees :
      (s : Live) (a : Ptr) (xs ys : List Ptr) (q : Pool) (m : Memory)
      → s.used ≡ xs ++ a ∷ ys
      → free (some s.pool) a s.mem ≡ (some q, m)
      → Step s (record { pool = q; mem = m; used = xs ++ ys })
  frees_foreign :
      (s : Live) (a : Ptr) (q : Pool) (m : Memory)
      → ¬ IsBlock s.pool.buf s.pool.block_size s.pool.block_count a
      → free (some s.pool) a s.mem ≡ (some q, m)
      → Step s (record { pool = q; mem = m; used = s.used })
  writes :
      (s : Live) (a o v : Ptr) (xs ys : List Ptr)
      → s.used ≡ xs ++ a ∷ ys
      → o + 8 ≤ s.pool.block_size
      → Step s (record { pool = s.pool; mem = store s.mem (a + o) v; used = s.used })

pub data Steps : Live → Live → Type 0 where
  stay : (s : Live) → Steps s s
  then : (s t u : Live) → Steps s t → Step t u → Steps s u

-- Lists of distinct blocks under ++.
pub NotIn-split : (a : Ptr) (xs ys : List Ptr) → NotIn a (xs ++ ys) → NotIn a xs × NotIn a ys
NotIn-split a [] ys n = (tt, n)
NotIn-split a (x ∷ xs) ys (ne, n) = let (l, r) = NotIn-split a xs ys n in ((ne, l), r)

NotIn-insert : (a b : Ptr) (xs ys : List Ptr) → a ≢ b → NotIn a (xs ++ ys) → NotIn a (xs ++ b ∷ ys)
NotIn-insert a b [] ys ne n = (ne, n)
NotIn-insert a b (x ∷ xs) ys ne (nx, n) = (nx, NotIn-insert a b xs ys ne n)

NotIn-remove :
    (a b : Ptr) (xs ys : List Ptr) → NotIn a (xs ++ b ∷ ys) → (a ≢ b) × NotIn a (xs ++ ys)
NotIn-remove a b [] ys n = n
NotIn-remove a b (x ∷ xs) ys (nx, n) = let (ne, rest) = NotIn-remove a b xs ys n in (ne, (nx, rest))

pub to_front :
    (a : Ptr) (xs ys : List Ptr)
    → Distinct (xs ++ a ∷ ys)
    → NotIn a (xs ++ ys) × Distinct (xs ++ ys)
to_front a [] ys d = d
to_front a (x ∷ xs) ys (n, d) =
    let (ne, rest) = NotIn-remove x a xs ys n in
    let (m, e) = to_front a xs ys d in ((λ z. ne (sym z), m), (rest, e))

pub from_front :
    (a : Ptr) (xs ys : List Ptr)
    → NotIn a (xs ++ ys)
    → Distinct (xs ++ ys)
    → Distinct (xs ++ a ∷ ys)
from_front a [] ys n d = (n, d)
from_front a (x ∷ xs) ys (ne, n) (m, d) =
    (NotIn-insert x a xs ys (λ z. ne (sym z)) m, from_front a xs ys n d)

pub AllBlocks-remove :
    (buf size count a : ℕ) (xs ys : List Ptr)
    → AllBlocks buf size count (xs ++ a ∷ ys)
    → IsBlock buf size count a × AllBlocks buf size count (xs ++ ys)
AllBlocks-remove buf size count a [] ys all = all
AllBlocks-remove buf size count a (x ∷ xs) ys (b, all) =
    let (here, rest) = AllBlocks-remove buf size count a xs ys all in (here, (b, rest))

pub length_insert : (a : Ptr) (xs ys : List Ptr) → length (xs ++ a ∷ ys) ≡ suc (length (xs ++ ys))
length_insert a [] ys = refl
length_insert a (x ∷ xs) ys = ap suc (length_insert a xs ys)

-- The blocks given out and the free ones fs are all the pool's blocks, each in one place.
abbrev pub InvWith : Pool → Memory → List Ptr → List Ptr → Type 0
InvWith p mem used fs =
    IsPool p mem fs
    × Distinct (used ++ fs)
    × AllBlocks p.buf p.block_size p.block_count used
    × (length used + length fs ≡ p.block_count)

-- The same for the pool of the buffer buf with count blocks of the given size.
abbrev pub Inv : Ptr → ℕ → ℕ → Live → Type 0
Inv buf size count s =
    (fs : List Ptr) × InvWith s.pool s.mem s.used fs
    × ((s.pool.buf ≡ buf) × (s.pool.block_size ≡ size) × (s.pool.block_count ≡ count))
