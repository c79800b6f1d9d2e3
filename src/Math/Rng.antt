-- ===== src/Math/Rng.antt =====
-- include/math/rng.h and src/math/rng.c: the PCG32 generator. Shifts are divisions and products by
-- powers of two; a cast to 32 bits is a remainder. The floating-point deviates are not modelled.
pub mod Range
mod Tests
use Prim.Native.Nat.{bit_or, bit_xor}
use c_comprehensive_template.Prelude.{
  ℕ, zero, suc, ◌+◌, ◌-◌, ◌*◌, ◌/◌, ◌%◌, ◌^◌, Option, none, some, leb, ◌==◌, if◌then◌else◌,
  size_mod,
}

abbrev pub word : ℕ
word = 2 ^ 32

pub record Rng : Type 0 where
  pub state : ℕ
  pub inc : ℕ

unfoldable pub next_u32 : Rng → ℕ × Rng
next_u32 r =
    let old = r.state in
    let xorshifted = bit_xor (old / 2 ^ 18) old / 2 ^ 27 % word in
    let rot = old / 2 ^ 59 in
    let left = (32 + (word - rot)) % word % 32 in
    (
      bit_or (xorshifted / 2 ^ rot) (xorshifted * 2 ^ left % word),
      record r { state = (old * 6364136223846793005 + r.inc) % size_mod },
    )

unfoldable pub seed : Option Rng → ℕ → ℕ → Option Rng
seed none value seq = none
seed (some r) value seq =
    let started : Rng = record { state = 0; inc = bit_or (seq * 2 % size_mod) 1 } in
    let stepped = (next_u32 started).1 in
    some (next_u32 (record stepped { state = (stepped.state + value) % size_mod })).1

unfoldable pub threshold : ℕ → ℕ
threshold bound = (word - bound) % word % bound

-- The rejection loop of rng_range_u32, within a number of draws.
unfoldable pub draw : ℕ → ℕ → Rng → Option (ℕ × Rng)
draw zero bound r = none
draw (suc tries) bound r =
    let (v, r') = next_u32 r in
    let later = draw tries bound r' in
    if leb (threshold bound) v then some (v % bound, r') else later

unfoldable pub range_u32 : ℕ → Rng → ℕ → Option (ℕ × Rng)
range_u32 tries r bound = if bound == 0 then some (0, r) else draw tries bound r
