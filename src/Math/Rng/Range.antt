-- ===== src/Math/Rng/Range.antt =====
-- rng_range_u32: which draw it takes, and which draws its threshold discards.
use native.Mathlib.Nat.{mod-lt, mod-eq_of_lt, div-add-mod, mul-mod_right}
use c_comprehensive_template.Prelude.{
  ℕ, zero, suc, ◌+◌, ◌-◌, ◌*◌, ◌/◌, ◌%◌, ◌≤◌, ◌<◌, ◌≡◌, ◌⊎◌, inl, inr, refl, Bool-cases, false,
  none, some, leb, ◌==◌, arith,
}
use c_comprehensive_template.Math.Rng.{word, Rng, next_u32, threshold, draw, range_u32}

-- The generator's next draws are all in the region that is discarded.
pub Rejected : ℕ → ℕ → Rng → Type 0
Rejected zero bound r = Unit
Rejected (suc tries) bound r =
    ((next_u32 r).0 < threshold bound) × Rejected tries bound (next_u32 r).1

-- The answer of the first draw outside the region that is discarded, and the generator after it.
pub Accepted : ℕ → ℕ → Rng → ℕ → Rng → Type 0
Accepted zero bound r v r' = ⊥
Accepted (suc tries) bound r v r' =
    ((threshold bound ≤ (next_u32 r).0) × (v ≡ (next_u32 r).0 % bound) × (r' ≡ (next_u32 r).1))
    ⊎ (((next_u32 r).0 < threshold bound) × Accepted tries bound (next_u32 r).1 v r')

draw_lem :
    (tries bound : ℕ) (r : Rng)
    → 0 < bound
    → ((draw tries bound r ≡ none) × Rejected tries bound r)
      ⊎ ((v : ℕ) × (r' : Rng) × (draw tries bound r ≡ some (v, r'))
          × Accepted tries bound r v r'
          × (v < bound))
unfolding draw Rejected Accepted
draw_lem zero bound r pos = inl (refl, tt)
draw_lem (suc tries) bound r pos = elim (Bool-cases (leb (threshold bound) (next_u32 r).0)) [
  | inl t ↦ inr (
    (next_u32 r).0 % bound,
    (next_u32 r).1,
    rw t refl,
    inl (ground (arith, t), refl, refl),
    mod-lt (next_u32 r).0 pos,
  )
  | inr t ↦ elim (draw_lem tries bound (next_u32 r).1 pos) [
    | inl (e, all) ↦ inl (rw t e, (ground (arith, t), all))
    | inr (v, r', e, first, low) ↦ inr (v, r', rw t e, inr (ground (arith, t), first), low)
  ]
]

-- For a bound that is not 0 and below 2 ^ 32: the threshold is below the bound, and the number of
-- 32-bit numbers from the threshold on is a multiple of the bound; and within any number of draws
-- either all lie below the threshold, and there is no answer, or the answer is the remainder by the
-- bound, which is below it, of the first draw that does not, with the generator after that draw.
pub range_lem :
    (tries bound : ℕ) (r : Rng)
    → 0 < bound
    → bound < word
    → (threshold bound < bound)
      × ((word - threshold bound) % bound ≡ 0)
      × (((range_u32 tries r bound ≡ none) × Rejected tries bound r)
          ⊎ ((v : ℕ) × (r' : Rng) × (range_u32 tries r bound ≡ some (v, r'))
              × Accepted tries bound r v r'
              × (v < bound)))
unfolding threshold range_u32
range_lem tries bound r pos small =
    let c0 : (bound == 0) ≡ false = ground (arith, pos) in
    let t = (word - bound) % bound in
    let q = (word - bound) / bound in
    let same : (word - bound) % word ≡ word - bound = mod-eq_of_lt (omega (arith, pos)) in
    let low : t < bound = mod-lt (word - bound) pos in
    let split : bound * q + t ≡ word - bound = div-add-mod (word - bound) bound in
    let left : word - t ≡ bound * (q + 1) = omega (arith, split, small) in
    (
      rw same low,
      rw same (rw left (mul-mod_right bound (q + 1))),
      rw c0 (draw_lem tries bound r pos),
    )
