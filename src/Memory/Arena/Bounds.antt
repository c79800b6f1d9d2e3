-- ===== src/Memory/Arena/Bounds.antt =====
-- What arena_alloc hands out: aligned, inside the buffer, and past everything handed out before.
use Prim.Native.Nat.{bit_and}
use native.Mathlib.Nat.{
  pow-suc, mod-lt, div-add-mod, mul-mod_left, mod_self, mul-mod_right, mul-add, mul-suc, mul_comm,
  pow-le-pow_right,
}
use c_comprehensive_template.Prelude.{
  ℕ, zero, suc, ◌+◌, ◌-◌, ◌*◌, ◌/◌, ◌%◌, ◌^◌, ◌≤◌, ◌<◌, ◌≡◌, ◌≢◌, refl, ap, sym, ◌∙◌, Option, none,
  some, List, [], ◌∷◌, ◌==◌, if◌then◌else◌, size_max, size_mod, arith, dec_lt, ℕ_discrete, inl, inr,
  ◌⊎◌,
}
use mathlib.Core.Path.{subst₂}
use c_comprehensive_template.Bits.{
  bit_and-low_mask, bit_and-high_mask, pow_of_bit_and-pred, pow_pos,
}
use c_comprehensive_template.Memory.Arena.{Ptr, Arena, align_up, alloc}

-- The buffer is a block that does not reach past the end of the address space.
pub record IsValid (a : Arena) : Type 0 where
  pub owned : a.buf ≢ 0
  pub small : a.buf + a.capacity < 2 ^ 63
  pub used : a.pos ≤ a.capacity

pow-add : (k j : ℕ) → 2 ^ k * 2 ^ j ≡ 2 ^ (k + j)
pow-add k zero = let e : k + 0 ≡ k = omega arith in rw e (omega arith)
pow-add k (suc j) =
    let e : k + suc j ≡ suc (k + j) = omega arith in
    rw e (
      omega (
        arith,
        pow-suc 2 j,
        pow-suc 2 (k + j),
        ap (λ (t : ℕ). t * 2) (pow-add k j),
        ap (λ (t : ℕ). 2 ^ k * t) (pow-suc 2 j),
      ))

-- The powers of two of a `size_t`.
pow-splits : (k : ℕ) → k < 64 → (2 ^ k * 2 ^ (64 - k) ≡ 2 ^ 64) × (2 ^ k ≤ 2 ^ 63)
pow-splits k h =
    let e : k + (64 - k) ≡ 64 = omega arith in
    let low : k ≤ 63 = omega arith in
    (pow-add k (64 - k) ∙ ap (λ t. 2 ^ t) e, pow-le-pow_right {n = 2} (omega arith) {j = 63} low)

mask_lem : (p w : ℕ) → 0 < p → 0 < w → p * w ≡ 2 ^ 64 → (w - 1) * p ≡ size_max - (p - 1)
mask_lem p zero pos h e = absurd (omega arith)
mask_lem p (suc m) pos h e =
    let one_less : suc m - 1 ≡ m = omega arith in
    rw one_less (omega (arith, mul-suc p m, mul_comm p m))

-- Rounding up to a power of two: the least multiple that is not below.
pub align_up_lem :
    (k pos : ℕ)
    → k < 64
    → pos + 2 ^ k ≤ 2 ^ 64
    → (pos ≤ align_up pos (2 ^ k))
      × (align_up pos (2 ^ k) < pos + 2 ^ k)
      × (align_up pos (2 ^ k) % 2 ^ k ≡ 0)
align_up_lem k pos h low =
    let j : ℕ = 64 - k in
    let split = (pow-splits k h).0 in
    let p : ℕ = 2 ^ k in
    let x : ℕ = (pos + p - 1) % size_mod in
    let positive = pow_pos k in
    let same : x ≡ pos + p - 1 = omega arith in
    let mask : (2 ^ j - 1) * p ≡ size_max - (p - 1) =
      mask_lem p (2 ^ j) positive (pow_pos j) split in
    let clear : align_up pos p ≡ x / p * p =
      ap (bit_and x) (sym mask) ∙ bit_and-high_mask k j x (omega arith) in
    (
      omega (arith, div-add-mod x p, mod-lt x positive),
      omega (arith, div-add-mod x p),
      ap (λ t. t % p) clear ∙ mul-mod_left (x / p) p,
    )

-- What arena_alloc does for an alignment of 2 ^ k on a valid arena: NULL and no change if the
-- aligned block does not fit, or an aligned block inside the buffer and past all before it.
pub data Outcome (a : Arena) (size align : ℕ) (out : Ptr × Option Arena) : Type 0 where
  full : out ≡ (0, some a) → a.capacity < align_up a.pos align + size → Outcome a size align out
  block :
      (q : ℕ) (a' : Arena)
      → out ≡ (a.buf + q, some a')
      → IsValid a'
      → a'.buf ≡ a.buf
      → a'.capacity ≡ a.capacity
      → a'.pos ≡ q + size
      → a.pos ≤ q
      → q % align ≡ 0
      → (a.buf % align ≡ 0 → (a.buf + q) % align ≡ 0)
      → q + size ≤ a.capacity
      → Outcome a size align out

aligned_sum : (b q p : ℕ) → 0 < p → q % p ≡ 0 → b % p ≡ 0 → (b + q) % p ≡ 0
aligned_sum b q p pos eq eb =
    let left : p * (b / p) + b % p ≡ b = div-add-mod b p in
    let right : p * (q / p) + q % p ≡ q = div-add-mod q p in
    let sum : b + q ≡ p * (b / p + q / p) =
      omega (arith, left, right, eq, eb, mul-add p (b / p) (q / p)) in
    rw sum (mul-mod_right p (b / p + q / p))

power_test : (k : ℕ) → bit_and (2 ^ k) (2 ^ k - 1) ≡ 0
power_test k = bit_and-low_mask k (2 ^ k) ∙ mod_self (2 ^ k)

-- On a valid arena, for a size that is not 0 and an alignment 2 ^ k below 2 ^ 64, arena_alloc gives
-- NULL and leaves the arena alone if the aligned block does not fit; otherwise a block inside the
-- buffer, at or behind what was in use, whose offset is a multiple of the alignment, and whose
-- address is one if the address of the buffer is.
pub alloc_lem :
    {a : Arena} (v : IsValid a) (size k : ℕ)
    → size ≢ 0
    → k < 64
    → Outcome a size (2 ^ k) (alloc (some a) size (2 ^ k))
unfolding alloc
alloc_lem {a} v size k some_size h =
    let (low, high, aligned) = align_up_lem k a.pos h (omega (arith, pow-splits k h)) in
    let positive = pow_pos k in
    let power = power_test k in
    elim (dec_lt a.capacity (align_up a.pos (2 ^ k) + size)) [
      | yes p ↦ full (ground (arith, v.owned)) p
      | no p ↦
          block (align_up a.pos (2 ^ k)) (record a { pos = align_up a.pos (2 ^ k) + size })
            (ground (arith, v.owned, pow-splits k h))
            (record { owned = v.owned; small = v.small; used = omega arith }) refl refl refl low
            aligned (aligned_sum a.buf (align_up a.pos (2 ^ k)) (2 ^ k) positive aligned)
            (omega arith)
    ]

-- arena_alloc answers NULL and leaves the arena alone for a size of 0 and for an alignment that is
-- not a power of two.
pub alloc_refuses :
    (a : Arena) (size align : ℕ)
    → (size ≡ 0) ⊎ (align ≡ 0) ⊎ ((k : ℕ) → align ≢ 2 ^ k)
    → alloc (some a) size align ≡ (0, some a)
unfolding alloc
alloc_refuses a size align (inl e) = ground arith
alloc_refuses a size align (inr (inl e)) = ground arith
alloc_refuses a size align (inr (inr odd)) = elim (ℕ_discrete (bit_and align (align - 1)) 0) [
  | no failed ↦ ground arith
  | yes passed ↦ elim (dec_lt 0 align) [
    | no none_there ↦ ground arith
    | yes positive ↦
        let (k, e) = pow_of_bit_and-pred align align (omega arith) positive passed in
        absurd (odd k e)
  ]
]

-- The blocks handed out by a sequence of requests for (size, 2 ^ k) bytes, with their sizes.
pub run : Arena → List (ℕ × ℕ) → List (Ptr × ℕ)
run a [] = []
run a ((size, k) ∷ reqs) =
    let (p, out) = alloc (some a) size (2 ^ k) in
    elim out [
      | none ↦ []
      | some a' ↦ let rest = run a' reqs in if p == 0 then rest else (p, size) ∷ rest
    ]

run_step :
    (a a' : Arena) (p size k : ℕ) (reqs : List (ℕ × ℕ))
    → alloc (some a) size (2 ^ k) ≡ (p, some a')
    → run a ((size, k) ∷ reqs) ≡ (if p == 0 then run a' reqs else (p, size) ∷ run a' reqs)
unfolding run
run_step a a' p size k reqs e = ground arith

-- Blocks in ascending order, none reaching into the next, between two addresses.
abbrev pub Packed : ℕ → List (Ptr × ℕ) → ℕ → Type 0
Packed low [] high = low ≤ high
Packed low ((p, size) ∷ rest) high = (low ≤ p) × Packed (p + size) rest high

abbrev pub Requests : List (ℕ × ℕ) → Type 0
Requests [] = Unit
Requests ((size, k) ∷ reqs) = (size ≢ 0) × (k < 64) × Requests reqs

-- The blocks that a valid arena gives for any requests of sizes that are not 0 and alignments that
-- are powers of two below 2 ^ 64 follow each other without overlap, and all lie in its buffer,
-- behind what was in use before.
pub run-Packed :
    (a : Arena) (reqs : List (ℕ × ℕ))
    → IsValid a
    → Requests reqs
    → Packed (a.buf + a.pos) (run a reqs) (a.buf + a.capacity)
run-Packed a [] v r = unfold run in omega (arith, v.used)
run-Packed a ((size, k) ∷ reqs) v (some_size, h, r) = elim (alloc_lem v size k some_size h) [
  | full e over ↦ rw (run_step a a 0 size k reqs e) (run-Packed a reqs v r)
  | block q a' e v' base room used low aligned _ fits ↦
      let here : run a ((size, k) ∷ reqs) ≡ (a.buf + q, size) ∷ run a' reqs =
        run_step a a' (a.buf + q) size k reqs e ∙ ground (arith, v.owned) in
      let start : a'.buf + a'.pos ≡ a.buf + q + size = omega arith in
      let end : a'.buf + a'.capacity ≡ a.buf + a.capacity = omega arith in
      rw here
        (omega arith, subst₂ (λ l h. Packed l (run a' reqs) h) start end (run-Packed a' reqs v' r))
]
