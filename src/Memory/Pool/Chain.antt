-- ===== src/Memory/Pool/Chain.antt =====
-- The free list of a pool as a list of its blocks.
use c_comprehensive_template.Prelude.{
  ℕ, zero, suc, ◌+◌, ◌*◌, ◌≤◌, ◌<◌, size_mod, ◌≡◌, ◌≢◌, ◌⊎◌, inl, inr, refl, ap, sym, subst, ◌∙◌,
  true, false, ◌||◌, leb, ◌==◌, ℕ_discrete, dec_lt, List, [], ◌∷◌, length, arith,
}
use c_comprehensive_template.Math.MatX.Tile.{row_end}
use c_comprehensive_template.Memory.Pool.{Ptr, Memory, store, Pool, link}

-- Following the words from p leads through the blocks fs to NULL.
abbrev pub Chain : Memory → Ptr → List Ptr → Type 0
Chain mem p [] = p ≡ 0
Chain mem p (f ∷ fs) = (p ≡ f) × (f ≢ 0) × Chain mem (mem f) fs

abbrev pub NotIn : Ptr → List Ptr → Type 0
NotIn a [] = Unit
NotIn a (f ∷ fs) = (a ≢ f) × NotIn a fs

abbrev pub Distinct : List Ptr → Type 0
Distinct [] = Unit
Distinct (f ∷ fs) = NotIn f fs × Distinct fs

-- The start of one of `count` blocks of the buffer.
abbrev pub IsBlock : Ptr → ℕ → ℕ → Ptr → Type 0
IsBlock buf size count a = (i : ℕ) × (i < count) × (a ≡ buf + i * size)

abbrev pub AllBlocks : Ptr → ℕ → ℕ → List Ptr → Type 0
AllBlocks buf size count [] = Unit
AllBlocks buf size count (f ∷ fs) = IsBlock buf size count f × AllBlocks buf size count fs

-- Two memories that agree on the blocks of a chain.
abbrev pub Agree : Memory → Memory → List Ptr → Type 0
Agree m m' [] = Unit
Agree m m' (f ∷ fs) = (m' f ≡ m f) × Agree m m' fs

-- A pool whose free list is fs: distinct blocks of the buffer, linked in this order.
abbrev pub IsPool : Pool → Memory → List Ptr → Type 0
IsPool p mem fs =
    (0 < p.buf)
    × (8 ≤ p.block_size)
    × (p.block_size * p.block_count < size_mod)
    × Distinct fs
    × AllBlocks p.buf p.block_size p.block_count fs
    × Chain mem p.free_list fs

pub Chain-congr :
    (m m' : Memory) (p : Ptr) (fs : List Ptr) → Agree m m' fs → Chain m p fs → Chain m' p fs
Chain-congr m m' p [] a c = c
Chain-congr m m' p (f ∷ fs) (same, a) (e, pos, c) =
    (e, pos, rw same (Chain-congr m m' (m f) fs a c))

-- The 8 bytes at p are apart from the first 8 bytes of all blocks of the list.
abbrev Far : Ptr → List Ptr → Type 0
Far p [] = Unit
Far p (f ∷ fs) = ((p + 8 ≤ f) ⊎ (f + 8 ≤ p)) × Far p fs

Agree-Far : (m : Memory) (p v : Ptr) (fs : List Ptr) → Far p fs → Agree m (store m p v) fs
unfolding store
Agree-Far m p v [] far = tt
Agree-Far m p v (f ∷ fs) (apart, far) =
    let other : (f == p) ≡ false = ground (arith, apart) in
    let outside : (leb (p + 8) f || leb (f + 8) p) ≡ true = ground (arith, apart) in
    (rw other (rw outside refl), Agree-Far m p v fs far)

-- The bytes of a block are apart from the first 8 bytes of the others.
block_Far :
    (buf : Ptr) (size count a o : ℕ) (fs : List Ptr)
    → o + 8 ≤ size
    → IsBlock buf size count a
    → AllBlocks buf size count fs
    → NotIn a fs
    → Far (a + o) fs
block_Far buf size count a o [] wide block all n = tt
block_Far buf size count a o (f ∷ fs) wide (i, low, e) ((j, low', e'), all) (ne, n) = (
  elim (ℕ_discrete i j) [
    | yes same ↦ absurd (ne (e ∙ ap (λ k. buf + k * size) same ∙ sym e'))
    | no other ↦ elim (dec_lt i j) [
      | yes h ↦ inl (omega (arith, row_end i j size h, e, e', wide))
      | no h ↦ inr (omega (arith, row_end j i size (omega (arith, h, other)), e, e', wide))
    ]
  ],
  block_Far buf size count a o fs wide (i, low, e) all n,
)

-- A write inside a block leaves the first words of the others alone.
pub Agree-store :
    (m : Memory) (buf : Ptr) (size count a o v : ℕ) (fs : List Ptr)
    → o + 8 ≤ size
    → IsBlock buf size count a
    → AllBlocks buf size count fs
    → NotIn a fs
    → Agree m (store m (a + o) v) fs
Agree-store m buf size count a o v fs wide block all n =
    Agree-Far m (a + o) v fs (block_Far buf size count a o fs wide block all n)

-- The same for its first word.
pub Agree-store_first :
    (m : Memory) (buf : Ptr) (size count a v : ℕ) (fs : List Ptr)
    → 8 ≤ size
    → IsBlock buf size count a
    → AllBlocks buf size count fs
    → NotIn a fs
    → Agree m (store m a v) fs
Agree-store_first m buf size count a v fs wide block all n =
    let here : a + 0 ≡ a = omega arith in
    subst (λ p. Agree m (store m p v) fs) here
      (Agree-store m buf size count a 0 v fs (omega (arith, wide)) block all n)

pub store_self : (m : Memory) (p v : Ptr) → store m p v p ≡ v
unfolding store
store_self m p v = ground arith

-- The blocks from i on, n of them.
abbrev pub blocks : Ptr → ℕ → ℕ → ℕ → List Ptr
blocks buf size i zero = []
blocks buf size i (suc n) = (buf + i * size) ∷ blocks buf size (i + 1) n

pub length-blocks : (buf : Ptr) (size i n : ℕ) → length (blocks buf size i n) ≡ n
length-blocks buf size i zero = refl
length-blocks buf size i (suc n) = ap suc (length-blocks buf size (i + 1) n)

NotIn-blocks :
    (buf : Ptr) (size : ℕ)
    → 0 < size
    → (k i n : ℕ) → k < i
    → NotIn (buf + k * size) (blocks buf size i n)
NotIn-blocks buf size pos k i zero h = tt
NotIn-blocks buf size pos k i (suc n) h =
    (λ e. absurd (grind arith), NotIn-blocks buf size pos k (i + 1) n (omega arith))

pub Distinct-blocks : (buf : Ptr) (size i n : ℕ) → 0 < size → Distinct (blocks buf size i n)
Distinct-blocks buf size i zero pos = tt
Distinct-blocks buf size i (suc n) pos =
    (NotIn-blocks buf size pos i (i + 1) n (omega arith), Distinct-blocks buf size (i + 1) n pos)

pub AllBlocks-blocks :
    (buf : Ptr) (size count i n : ℕ)
    → i + n ≤ count
    → AllBlocks buf size count (blocks buf size i n)
AllBlocks-blocks buf size count i zero h = tt
AllBlocks-blocks buf size count i (suc n) h =
    ((i, omega arith, refl), AllBlocks-blocks buf size count (i + 1) n (omega arith))

-- The loop of pool_init puts the blocks below i in front of a chain of the others.
pub link_lem :
    (i n : ℕ) (buf : Ptr) (size : ℕ) (mem : Memory) (head : Ptr)
    → 0 < buf
    → 8 ≤ size
    → Chain mem head (blocks buf size i n)
    → Chain (link i buf size mem head).0 (link i buf size mem head).1 (blocks buf size 0 (i + n))
unfolding link
link_lem zero n buf size mem head pos wide c = let e : n ≡ 0 + n = omega arith in rw (← e) c
link_lem (suc i) n buf size mem head pos wide c =
    let here : Ptr = buf + i * size in
    let apart = NotIn-blocks buf size (omega (arith, wide)) i (suc i) n (omega arith) in
    let all = AllBlocks-blocks buf size (suc i + n) (suc i) n (omega arith) in
    let block : IsBlock buf size (suc i + n) here = (i, omega arith, refl) in
    let e : i + suc n ≡ suc i + n = omega arith in
    let same : suc i ≡ i + 1 = omega arith in
    let rest = blocks buf size (i + 1) n in
    let chain : Chain (store mem here head) head rest = rw (← same) (
      Chain-congr mem (store mem here head) head (blocks buf size (suc i) n)
        (Agree-store_first mem buf size (suc i + n) here head (blocks buf size (suc i) n) wide block
          all apart)
        c) in
    let full : Chain (store mem here head) here (here ∷ rest) =
      (refl, λ z. absurd (omega (arith, pos, z)), rw (store_self mem here head) chain) in
    rw e at (link_lem i (suc n) buf size (store mem here head) here pos wide full)
