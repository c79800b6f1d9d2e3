-- ===== src/Memory/Pool/Ops.antt =====
-- What the operations of src/memory/pool.c do to the free list.
use c_comprehensive_template.Prelude.{
  ℕ, ◌+◌, ◌-◌, ◌*◌, ◌/◌, ◌%◌, ◌≤◌, ◌<◌, ◌≡◌, ◌≢◌, Bool-cases, ◌⊎◌, inl, inr, refl, ap, ◌∙◌, false,
  some, List, [], ◌∷◌, ltb, ◌==◌, size_max, size_mod, arith, dec_lt,
}
use native.Mathlib.Nat.{
  div-lt_iff_lt-mul, mul_comm, mul-le-mul_right, mod-eq_of_lt, mul-mod_left, div-add-mod,
}
use c_comprehensive_template.Core.Error.{ok}
use c_comprehensive_template.Memory.Pool.{
  Ptr, Memory, store, Pool, padded, link, init, alloc, is_foreign, free,
}
use c_comprehensive_template.Memory.Pool.Chain.{
  NotIn, IsBlock, IsPool, Chain-congr, Agree-store_first, store_self, blocks, Distinct-blocks,
  AllBlocks-blocks, link_lem,
}

fits_lem : (k count : ℕ) → 0 < k → k * count < size_mod → ltb (size_max / k) count ≡ false
fits_lem k count pos fits = elim (dec_lt (size_max / k) count) [
  | yes h ↦ absurd (omega (arith, (div-lt_iff_lt-mul pos).0 h, mul_comm k count))
  | no h ↦ ground arith
]

-- pool_init on a block size and a count whose product fits.
pub init_lem :
    (malloc : ℕ → Ptr) (p : Pool) (size count : ℕ) (mem : Memory)
    → 0 < count
    → padded size * count < size_mod
    → 0 < malloc (padded size * count)
    → let buf = malloc (padded size * count) in
      let linked = link count buf (padded size) mem 0 in
      let q : Pool = record {
        buf = buf;
        block_size = padded size;
        block_count = count;
        free_list = linked.1;
      } in
      (init malloc (some p) size count mem ≡ (ok, some q, linked.0))
      × IsPool q linked.0 (blocks buf (padded size) 0 count)
unfolding init
init_lem malloc p size count mem several fits buf =
    let k = padded size in
    let wide : 8 ≤ k = ground arith in
    let a = malloc (k * count) in
    let q : Pool = record {
      buf = a;
      block_size = k;
      block_count = count;
      free_list = (link count a k mem 0).1;
    } in
    let c0 : (count == 0) ≡ false = ground arith in
    let c1 = fits_lem k count (omega (arith, wide)) fits in
    let c2 : (a == 0) ≡ false = ground arith in
    let e : count + 0 ≡ count = omega arith in
    (
      simp (c0, c1, c2),
      (
        buf,
        wide,
        fits,
        Distinct-blocks a k 0 count (omega (arith, wide)),
        AllBlocks-blocks a k count 0 count (omega arith),
        rw e at (link_lem count 0 a k mem 0 buf wide refl),
      ),
    )

-- pool_alloc gives NULL when no block is free, else the first free block.
pub alloc_lem :
    (p : Pool) (mem : Memory) (fs : List Ptr)
    → IsPool p mem fs
    → ((fs ≡ []) × (alloc (some p) mem ≡ (0, some p)))
      ⊎ ((f : Ptr) × (gs : List Ptr) × (fs ≡ f ∷ gs)
          × (f ≢ 0)
          × IsBlock p.buf p.block_size p.block_count f
          × (alloc (some p) mem ≡ (f, some (record p { free_list = mem f })))
          × IsPool (record p { free_list = mem f }) mem gs)
unfolding alloc
alloc_lem p mem [] (buf, wide, fits, d, b, c) = inl (refl, ground arith)
alloc_lem p mem (f ∷ gs) (buf, wide, fits, (n, d), (here, b), (e, pos, c)) =
    let c0 : (p.free_list == 0) ≡ false = ground arith in
    let runs : alloc (some p) mem ≡ (p.free_list, some (record p { free_list = mem p.free_list })) =
      simp (c0) in
    inr (
      f,
      gs,
      refl,
      pos,
      here,
      runs ∙ ap (λ z. (z, some (record p { free_list = mem z }))) e,
      (buf, wide, fits, d, b, c),
    )

-- The start of a block is no foreign pointer.
is_foreign-IsBlock :
    (p : Pool) (a : Ptr)
    → 0 < p.block_size
    → p.block_size * p.block_count < size_mod
    → IsBlock p.buf p.block_size p.block_count a
    → is_foreign p a ≡ false
is_foreign-IsBlock p a wide fits (i, small, e) =
    let size = p.block_size in
    let room : (i + 1) * size ≤ p.block_count * size = mul-le-mul_right size (omega arith) in
    let span : size * p.block_count % size_mod ≡ size * p.block_count = mod-eq_of_lt fits in
    let offset : p.buf + i * size - p.buf ≡ i * size = omega arith in
    let whole : i * size % size ≡ 0 = mul-mod_left i size in
    rw e (rw span (rw offset (rw whole (ground (arith, room)))))

-- pool_free puts a block that is not free in front of the free list.
pub free_lem :
    (p : Pool) (mem : Memory) (fs : List Ptr) (a : Ptr)
    → IsPool p mem fs
    → IsBlock p.buf p.block_size p.block_count a
    → NotIn a fs
    → (free (some p) a mem ≡ (some (record p { free_list = a }), store mem a p.free_list))
      × IsPool (record p { free_list = a }) (store mem a p.free_list) (a ∷ fs)
unfolding free
free_lem p mem fs a (buf, wide, fits, d, b, c) block apart =
    let c0 : (a == 0) ≡ false = ground (arith, block) in
    let c1 : (p.buf == 0) ≡ false = ground arith in
    let c2 = is_foreign-IsBlock p a (omega (arith, wide)) fits block in
    let new =
      Chain-congr mem (store mem a p.free_list) p.free_list fs
        (Agree-store_first mem p.buf p.block_size p.block_count a p.free_list fs wide block b apart)
        c in
    (
      simp (c0, c1, c2),
      (
        buf,
        wide,
        fits,
        (apart, d),
        (block, b),
        (refl, λ z. absurd (omega (arith, block.2, buf, z)), rw (store_self mem a p.free_list) new),
      ),
    )

inside_lem :
    (p : Pool) (a : Ptr)
    → is_foreign p a ≡ false
    → (p.buf ≤ a)
      × (a < p.buf + p.block_size * p.block_count % size_mod)
      × ((a - p.buf) % p.block_size ≡ 0)
inside_lem p a inside = (ground (arith, inside), ground (arith, inside), ground (arith, inside))

-- A pointer that is the start of none of the pool's blocks is ignored by pool_free.
pub free_ignores :
    (p : Pool) (mem : Memory) (a : Ptr)
    → 0 < p.block_size
    → p.block_size * p.block_count < size_mod
    → ¬ IsBlock p.buf p.block_size p.block_count a
    → free (some p) a mem ≡ (some p, mem)
unfolding free
free_ignores p mem a wide fits none_of =
    let size = p.block_size in
    let offset = a - p.buf in
    let span : size * p.block_count % size_mod ≡ size * p.block_count = mod-eq_of_lt fits in
    let split : size * (offset / size) + offset % size ≡ offset = div-add-mod offset size in
    elim (Bool-cases (is_foreign p a)) [
      | inl foreign ↦ ground (arith, foreign)
      | inr inside ↦
          let (low, high, whole) = inside_lem p a inside in
          let few : offset / size < p.block_count =
            (div-lt_iff_lt-mul wide).1
              (omega (arith, high, low, span, mul_comm size p.block_count)) in
          absurd (
            none_of
              (offset / size, few, omega (arith, split, whole, low, mul_comm size (offset / size))))
    ]
