-- ===== src/Hpc/Parallel/Partition.antt =====
-- The chunks are consecutive, cover the range exactly, and are even.
use native.Mathlib.Nat.{suc-mul, div-add-mod, mod-lt, le-div_iff_mul-le}
use c_comprehensive_template.Prelude.{
  ℕ, zero, suc, ◌+◌, ◌-◌, ◌*◌, ◌/◌, ◌%◌, ◌≤◌, ◌<◌, min, ◌≡◌, ◌≢◌, refl, ◌⊎◌, inl, inr, Bool, true,
  false, List, [], ◌∷◌, length, ltb, if◌then◌else◌, arith, size_max, ap,
}
use c_comprehensive_template.Hpc.Parallel.{Chunk, chunks_from, clamp, parallel_for}

-- Non-empty chunks in a row, from one index to another.
abbrev pub Covers : ℕ → List Chunk → ℕ → Type 0
Covers low [] high = low ≡ high
Covers low (c ∷ cs) high = (c.start ≡ low) × (c.start < c.end) × Covers c.end cs high

-- Every chunk has `size` indices, or one more.
abbrev pub Even : ℕ → List Chunk → Type 0
Even size [] = Unit
Even size (c ∷ cs) = ((c.end ≡ c.start + size) ⊎ (c.end ≡ c.start + size + 1)) × Even size cs

pub length-chunks_from :
    (create : ℕ → Bool) (rounds i off size extra : ℕ)
    → length (chunks_from create rounds i off size extra) ≡ rounds
unfolding chunks_from
length-chunks_from create zero i off size extra = refl
length-chunks_from create (suc rounds) i off size extra = ap suc (
    length-chunks_from create rounds (i + 1) (off + size + (if ltb i extra then 1 else 0)) size
      extra)

abbrev high_end : ℕ → ℕ → ℕ → ℕ → ℕ → ℕ
high_end rounds i off size extra = off + rounds * size + (min (i + rounds) extra - min i extra)

pub chunks_from-Covers :
    (create : ℕ → Bool) (rounds i off size extra : ℕ)
    → 0 < size
    → Covers off (chunks_from create rounds i off size extra) (high_end rounds i off size extra)
unfolding chunks_from
chunks_from-Covers create zero i off size extra h = omega arith
chunks_from-Covers create (suc rounds) i off size extra h =
    let end : ℕ = off + size + (if ltb i extra then 1 else 0) in
    let same : high_end rounds (i + 1) end size extra ≡ high_end (suc rounds) i off size extra =
      ground (arith, suc-mul rounds size) in
    (refl, ground arith, rw same at (chunks_from-Covers create rounds (i + 1) end size extra h))

pub chunks_from-Even :
    (create : ℕ → Bool) (rounds i off size extra : ℕ)
    → Even size (chunks_from create rounds i off size extra)
unfolding chunks_from
chunks_from-Even create zero i off size extra = tt
chunks_from-Even create (suc rounds) i off size extra = (
  one_more (ltb i extra),
  chunks_from-Even create rounds (i + 1) (off + size + (if ltb i extra then 1 else 0)) size extra,
)
  where
    one_more :
        (b : Bool)
        → (off + size + (if b then 1 else 0) ≡ off + size)
          ⊎ (off + size + (if b then 1 else 0) ≡ off + size + 1)
    one_more true = inr refl
    one_more false = inl (omega arith)

-- The chunks that the loop makes for t threads, 0 < t ≤ n.
pub split_lem :
    (create : ℕ → Bool) (n t : ℕ)
    → 0 < t
    → t ≤ n
    → Covers 0 (chunks_from create t 0 0 (n / t) (n % t)) n
split_lem create n t pos low =
    let wide : 0 < n / t = (le-div_iff_mul-le {k = t} {x = 1} {y = n} pos).1 (omega arith) in
    let total : high_end t 0 0 (n / t) (n % t) ≡ n = omega (arith, div-add-mod n t, mod-lt n pos) in
    rw total at (chunks_from-Covers create t 0 0 (n / t) (n % t) wide)

-- With memory and few enough threads there are min(threads, n) chunks, whose lengths differ by at
-- most one.
pub parallel_for-Even :
    (create : ℕ → Bool) (n threads : ℕ)
    → n ≢ 0
    → threads ≢ 0
    → clamp threads n ≤ size_max / 32
    → (length (parallel_for create true n threads) ≡ min threads n)
      × Even (n / clamp threads n) (parallel_for create true n threads)
unfolding parallel_for
parallel_for-Even create n threads hn ht few =
    let t : ℕ = clamp threads n in
    let runs : parallel_for create true n threads ≡ chunks_from create t 0 0 (n / t) (n % t) =
      ground arith in
    rw runs (
      rw (length-chunks_from create t 0 0 (n / t) (n % t)) (ground arith),
      chunks_from-Even create t 0 0 (n / t) (n % t),
    )
