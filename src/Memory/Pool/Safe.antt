-- ===== src/Memory/Pool/Safe.antt =====
-- The blocks of a pool in use: src/memory/pool.c keeps those given out apart.
use c_comprehensive_template.Prelude.{
  ℕ, suc, ◌+◌, ◌*◌, ◌≤◌, ◌<◌, ◌≡◌, ◌≢◌, ◌⊎◌, inl, inr, refl, ap, sym, subst, ◌∙◌, Option, none,
  some, List, [], ◌∷◌, ◌++◌, append_assoc, length, size_mod, arith,
}
use c_comprehensive_template.Core.Error.{ok}
use c_comprehensive_template.Memory.Pool.{Ptr, Memory, store, Pool, padded, init, alloc, free}
use c_comprehensive_template.Memory.Pool.Chain.{
  NotIn, Distinct, IsBlock, AllBlocks, Chain-congr, Agree-store, blocks, length-blocks,
}
use c_comprehensive_template.Memory.Pool.Ops.{init_lem, alloc_lem, free_lem, free_ignores}
use c_comprehensive_template.Memory.Pool.Live.{
  Live, Step, allocates, refuses, frees, frees_foreign, writes, Steps, stay, then, NotIn-split,
  to_front, from_front, AllBlocks-remove, length_insert, InvWith, Inv,
}

-- pool_alloc moves the first free block to the blocks given out, or none is free.
pub alloc-Inv :
    (p : Pool) (mem : Memory) (used fs : List Ptr)
    → InvWith p mem used fs
    → ((length used ≡ p.block_count) × (alloc (some p) mem ≡ (0, some p)))
      ⊎ ((f : Ptr) × (gs : List Ptr) × (f ≢ 0)
          × (length used < p.block_count)
          × (alloc (some p) mem ≡ (f, some (record p { free_list = mem f })))
          × InvWith (record p { free_list = mem f }) mem (f ∷ used) gs)
alloc-Inv p mem used fs (pool, d, all, count) = elim (alloc_lem p mem fs pool) [
  | inl (e, runs) ↦ inl (omega (arith, ap length e, count), runs)
  | inr (f, gs, e, pos, here, runs, pool') ↦
      let n : length fs ≡ suc (length gs) = ap length e in
      inr (
        f,
        gs,
        pos,
        omega (arith, n, count),
        runs,
        (
          pool',
          to_front f used gs (subst (λ l. Distinct (used ++ l)) e d),
          (here, all),
          omega (arith, n, count),
        ),
      )
]

free-Inv :
    (p : Pool) (mem : Memory) (xs ys fs : List Ptr) (a : Ptr)
    → InvWith p mem (xs ++ a ∷ ys) fs
    → (free (some p) a mem ≡ (some (record p { free_list = a }), store mem a p.free_list))
      × InvWith (record p { free_list = a }) (store mem a p.free_list) (xs ++ ys) (a ∷ fs)
free-Inv p mem xs ys fs a (pool, d, all, count) =
    let (n, d') = to_front a xs (ys ++ fs) (subst Distinct (append_assoc xs (a ∷ ys) fs) d) in
    let n' = subst (NotIn a) (sym (append_assoc xs ys fs)) n in
    let (block, all') = AllBlocks-remove p.buf p.block_size p.block_count a xs ys all in
    let (runs, pool') = free_lem p mem fs a pool block (NotIn-split a (xs ++ ys) fs n').1 in
    (
      runs,
      (
        pool',
        from_front a (xs ++ ys) fs n' (subst Distinct (sym (append_assoc xs ys fs)) d'),
        all',
        omega (arith, length_insert a xs ys, count),
      ),
    )

write-Inv :
    (p : Pool) (mem : Memory) (xs ys fs : List Ptr) (a o v : Ptr)
    → o + 8 ≤ p.block_size
    → InvWith p mem (xs ++ a ∷ ys) fs
    → InvWith p (store mem (a + o) v) (xs ++ a ∷ ys) fs
write-Inv p mem xs ys fs a o v inside ((buf, wide, fits, ds, blocks, c), d, all, count) =
    let (n, d') = to_front a xs (ys ++ fs) (subst Distinct (append_assoc xs (a ∷ ys) fs) d) in
    let n' = subst (NotIn a) (sym (append_assoc xs ys fs)) n in
    let (block, _) = AllBlocks-remove p.buf p.block_size p.block_count a xs ys all in
    let kept =
      Chain-congr mem (store mem (a + o) v) p.free_list fs
        (Agree-store mem p.buf p.block_size p.block_count a o v fs inside block blocks
          (NotIn-split a (xs ++ ys) fs n').1)
        c in
    ((buf, wide, fits, ds, blocks, kept), d, all, count)

abbrev the_pool : Pool → Option Pool → Pool
the_pool p none = p
the_pool p (some q) = q

Step-Inv :
    (buf : Ptr) (size count : ℕ) (s t : Live)
    → Step s t
    → Inv buf size count s
    → Inv buf size count t
Step-Inv buf size count _ _ (allocates s a q e pos) (fs, inv, kept) =
    elim (alloc-Inv s.pool s.mem s.used fs inv) [
      | inl (full, runs) ↦ absurd (pos (ap (λ z. z.0) (sym e ∙ runs)))
      | inr (f, gs, _, _, runs, inv') ↦
          subst
            (λ z.
              Inv buf size count
                (record { pool = the_pool s.pool z.1; mem = s.mem; used = z.0 ∷ s.used }))
            (sym runs ∙ e) (gs, inv', kept)
    ]
Step-Inv buf size count _ _ (refuses s q e) (fs, inv, kept) =
    elim (alloc-Inv s.pool s.mem s.used fs inv) [
      | inl (full, runs) ↦
          subst
            (λ z.
              Inv buf size count
                (record { pool = the_pool s.pool z.1; mem = s.mem; used = s.used }))
            (sym runs ∙ e) (fs, inv, kept)
      | inr (f, gs, pos, _, runs, inv') ↦ absurd (pos (ap (λ z. z.0) (sym runs ∙ e)))
    ]
Step-Inv buf size count _ _ (frees s a xs ys q m out e) (fs, inv, kept) =
    let (runs, inv') =
      free-Inv s.pool s.mem xs ys fs a (subst (λ l. InvWith s.pool s.mem l fs) out inv) in
    subst
      (λ z. Inv buf size count (record { pool = the_pool s.pool z.0; mem = z.1; used = xs ++ ys }))
      (sym runs ∙ e) (a ∷ fs, inv', kept)
Step-Inv buf size count _ _ (frees_foreign s a q m foreign e) (fs, inv, kept) =
    let (_, wide, fits, _, _, _) = inv.0 in
    let runs = free_ignores s.pool s.mem a (omega (arith, wide)) fits foreign in
    subst
      (λ z. Inv buf size count (record { pool = the_pool s.pool z.0; mem = z.1; used = s.used }))
      (sym runs ∙ e) (fs, inv, kept)
Step-Inv buf size count _ _ (writes s a o v xs ys out inside) (fs, inv, kept) = (
  fs,
  subst (λ l. InvWith s.pool (store s.mem (a + o) v) l fs) (sym out)
      (write-Inv s.pool s.mem xs ys fs a o v inside
        (subst (λ l. InvWith s.pool s.mem l fs) out inv)),
  kept,
)

Steps_keep :
    (buf : Ptr) (size count : ℕ) (s t : Live)
    → Steps s t
    → Inv buf size count s
    → Inv buf size count t
Steps_keep buf size count _ _ (stay s) inv = inv
Steps_keep buf size count _ _ (then s t u runs step) inv =
    Step-Inv buf size count t u step (Steps_keep buf size count s t runs inv)

Distinct-left : (xs ys : List Ptr) → Distinct (xs ++ ys) → Distinct xs
Distinct-left [] ys d = tt
Distinct-left (x ∷ xs) ys (n, d) = ((NotIn-split x xs ys n).0, Distinct-left xs ys d)

-- pool_init leaves every block free.
init-Inv :
    (malloc : ℕ → Ptr) (p q : Pool) (size count : ℕ) (mem m : Memory)
    → 0 < count
    → padded size * count < size_mod
    → 0 < malloc (padded size * count)
    → init malloc (some p) size count mem ≡ (ok, some q, m)
    → Inv
        (malloc (padded size * count))
        (padded size)
        count
        (record { pool = q; mem = m; used = [] })
init-Inv malloc p q size count mem m several fits buf e =
    let a = malloc (padded size * count) in
    let (runs, inv) = init_lem malloc p size count mem several fits buf in
    let n : 0 + length (blocks a (padded size) 0 count) ≡ count =
      omega (arith, length-blocks a (padded size) 0 count) in
    subst (λ z. Inv a (padded size) count (record { pool = the_pool q z.1; mem = z.2; used = [] }))
      (sym runs ∙ e) (blocks a (padded size) 0 count, (inv, inv.3, tt, n), (refl, refl, refl))

safe_lem :
    (buf : Ptr) (size count : ℕ) (s : Live) (fs : List Ptr)
    → InvWith s.pool s.mem s.used fs
    → (s.pool.buf ≡ buf) × (s.pool.block_size ≡ size) × (s.pool.block_count ≡ count)
    → Distinct s.used
      × AllBlocks buf size count s.used
      × (((length s.used ≡ count) × ((alloc (some s.pool) s.mem).0 ≡ 0))
          ⊎ ((length s.used < count)
              × ((alloc (some s.pool) s.mem).0 ≢ 0)
              × IsBlock buf size count (alloc (some s.pool) s.mem).0
              × NotIn (alloc (some s.pool) s.mem).0 s.used))
safe_lem buf size count s fs inv (k0, k1, k2) =
    let rebase =
      λ (g : List Ptr) (all : AllBlocks s.pool.buf s.pool.block_size s.pool.block_count g).
        subst (λ c. AllBlocks buf size c g) k2
          (subst (λ z. AllBlocks buf z s.pool.block_count g) k1
            (subst (λ b. AllBlocks b s.pool.block_size s.pool.block_count g) k0 all)) in
    (
      Distinct-left s.used fs inv.1,
      rebase s.used inv.2,
      elim (alloc-Inv s.pool s.mem s.used fs inv) [
        | inl (full, runs) ↦ inl (full ∙ k2, ap (λ z. z.0) runs)
        | inr (f, gs, pos, room, runs, (ip, d, all, n)) ↦ inr (
          rw k2 at room,
          λ z. pos (sym (ap (λ z. z.0) runs) ∙ z),
          subst (IsBlock buf size count) (sym (ap (λ z. z.0) runs)) (rebase (f ∷ s.used) all).0,
          subst (λ z. NotIn z s.used) (sym (ap (λ z. z.0) runs)) (NotIn-split f s.used gs d.0).0,
        )
      ],
    )

-- From a pool that pool_init made of the block malloc gave, after any calls of pool_alloc and
-- pool_free (of blocks that are out, of NULL and of pointers that are the start of no block) and any
-- writes of 8 bytes inside blocks that are out: the blocks given out are distinct blocks of that
-- buffer; and pool_alloc either gives NULL, when all
-- of them are out, or when fewer are, gives a block of the buffer that is not out.
pub pool-Safe :
    (malloc : ℕ → Ptr) (p q : Pool) (size count : ℕ) (mem m : Memory) (s : Live)
    → 0 < count
    → padded size * count < size_mod
    → 0 < malloc (padded size * count)
    → init malloc (some p) size count mem ≡ (ok, some q, m)
    → Steps (record { pool = q; mem = m; used = [] }) s
    → Distinct s.used
      × AllBlocks (malloc (padded size * count)) (padded size) count s.used
      × (((length s.used ≡ count) × ((alloc (some s.pool) s.mem).0 ≡ 0))
          ⊎ ((length s.used < count)
              × ((alloc (some s.pool) s.mem).0 ≢ 0)
              × IsBlock
                  (malloc (padded size * count))
                  (padded size)
                  count
                  (alloc (some s.pool) s.mem).0
              × NotIn (alloc (some s.pool) s.mem).0 s.used))
pool-Safe malloc p q size count mem m s several fits buf e runs =
    let a = malloc (padded size * count) in
    let start = init-Inv malloc p q size count mem m several fits buf e in
    let (fs, inv, kept) = Steps_keep a (padded size) count _ s runs start in
    safe_lem a (padded size) count s fs inv kept
