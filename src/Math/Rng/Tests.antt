-- ===== src/Math/Rng/Tests.antt =====
-- The generator seeded with 42 and stream 54, whose first outputs are published with PCG32.
use c_comprehensive_template.Prelude.{ℕ, ◌-◌, ◌%◌, ◌<◌, ◌≡◌, ◌⊎◌, refl, Option, some, none, arith}
use c_comprehensive_template.Math.Rng.{word, Rng, next_u32, seed, threshold, range_u32}
use c_comprehensive_template.Math.Rng.Range.{Rejected, Accepted, range_lem}

abbrev blank : Rng
blank = record { state = 0; inc = 0 }

or_blank : Option Rng → Rng
or_blank none = blank
or_blank (some r) = r

first_output : (next_u32 (or_blank (seed (some blank) 42 54))).0 ≡ 2707161783
unfolding next_u32 seed or_blank
first_output = refl

range_example :
    (threshold 6 < 6)
    × ((word - threshold 6) % 6 ≡ 0)
    × (((range_u32 3 (or_blank (seed (some blank) 42 54)) 6 ≡ none)
          × Rejected 3 6 (or_blank (seed (some blank) 42 54)))
        ⊎ ((v : ℕ) × (r' : Rng) × (range_u32 3 (or_blank (seed (some blank) 42 54)) 6
              ≡ some (v, r'))
            × Accepted 3 6 (or_blank (seed (some blank) 42 54)) v r'
            × (v < 6)))
range_example = range_lem 3 6 (or_blank (seed (some blank) 42 54)) (omega arith) (omega arith)
