-- ===== src/Ml/Dataset/Shuffle.antt =====
-- dataset_shuffle of src/ml/dataset.c permutes the rows of the features, and those of the labels
-- along with them.
use c_comprehensive_template.Prelude.{
  ℕ, zero, suc, ◌+◌, ◌-◌, ◌*◌, ◌/◌, ◌%◌, ◌≤◌, ◌<◌, ◌≡◌, ◌≢◌, refl, Bool, true, false, ◌⊎◌, inl, inr,
  Option, none, some, Option-cases, arith, Bool-cases, ℕ_discrete, ◌==◌, size_mod,
}
use native.Mathlib.Nat.{mod-lt, mod-le, mod-eq_of_lt}
use c_comprehensive_template.Core.Error.{ErrorCode, ok, nomem}
use c_comprehensive_template.Math.Rng.{Rng, range_u32, word}
use c_comprehensive_template.Math.Rng.Range.{range_lem}
use c_comprehensive_template.Math.MatX.{FloatOps, Memory, MatX, float_size}
use c_comprehensive_template.Ml.Dataset.{shuffle_from, shuffle, fits_labels, max_cols}
use c_comprehensive_template.Ml.Dataset.Rows.{swapped}
use c_comprehensive_template.Ml.Dataset.Rearrange.{
  IsSized, AreLabels, Shuffled, Shuffled-swapped_self, swap_both_lem, unmoved-Shuffled,
  twice-Shuffled,
}

drawn :
    (out : Option (ℕ × Rng)) (j v : ℕ) (r r' : Rng) → out ≡ some (j, r) → out ≡ some (v, r') → j ≡ v
drawn out j v r r' e h = ground (arith, e, h)

-- A draw does not exceed its bound.
draw_below :
    (tries b j : ℕ) (rng rng' : Rng)
    → b < word
    → range_u32 tries rng b ≡ some (j, rng')
    → (j ≡ 0) ⊎ (j < b)
unfolding range_u32
draw_below tries b j rng rng' small e = elim (ℕ_discrete b 0) [
  | yes z ↦ inl (ground (arith, e, z))
  | no n ↦ elim (range_lem tries b rng (omega arith) small).2 [
    | inl (out, _) ↦ absurd (ground (arith, e, out))
    | inr (v, r', h, _, low) ↦
        let same : j ≡ v = drawn (range_u32 tries rng b) j v rng' r' e h in inr (omega arith)
  ]
]

-- The Fisher-Yates permutation of the numbers up to k that draws of rng_range_u32 make, and the
-- generator after them: the last number changes places with the one drawn, then those before it are
-- permuted. None if a draw does not end within its tries.
pub drawn_perm : ℕ → ℕ → Rng → Option ((ℕ → ℕ) × Rng)
drawn_perm tries zero rng = some (λ r. r, rng)
drawn_perm tries (suc k) rng = elim (range_u32 tries rng ((suc k + 1) % word)) [
  | none ↦ none
  | some (j, rng') ↦ elim (drawn_perm tries k rng') [
    | none ↦ none
    | some (τ, rng'') ↦ some (λ r. swapped (suc k) j (τ r), rng'')
  ]
]

module _ {F : Type 0} (ops : FloatOps F) where
  -- What the loop does: its rows are permuted as drawn, or there is no permutation, since a draw of
  -- rng_range_u32 did not end in the tries it has.
  pub data Outcome (drawn : Option ((ℕ → ℕ) × Rng)) (x : MatX) (y : Option MatX) (mem : Memory F)
      (out : Option (Memory F × Rng)) : Type 0 where
    exhausted : drawn ≡ none → out ≡ none → Outcome drawn x y mem out
    permuted :
        (mem' : Memory F) (rng : Rng) (σ : ℕ → ℕ)
        → drawn ≡ some (σ, rng)
        → out ≡ some (mem', rng)
        → Shuffled ops x y mem mem' σ
        → Outcome drawn x y mem out

  shuffle_from_lem :
      (tries room : ℕ) (x : MatX) (y : Option MatX) (k : ℕ) (mem : Memory F) (rng : Rng)
      → IsSized ops mem x
      → AreLabels ops mem x y
      → max_cols ops x y ≤ room
      → k < x.rows
      → Outcome (drawn_perm tries k rng) x y mem (shuffle_from ops tries room x y k mem rng)
  unfolding shuffle_from drawn_perm
  shuffle_from_lem tries room x y zero mem rng size labels fits h =
      permuted mem rng (λ r. r) refl refl (unmoved-Shuffled ops x y mem size labels)
  shuffle_from_lem tries room x y (suc k) mem rng size labels fits h =
      let bound : ℕ = (suc k + 1) % word in
      elim (Option-cases (range_u32 tries rng bound)) [
        | inl e ↦ exhausted (rw (drawn_perm, e) refl) (rw (shuffle_from, e) refl)
        | inr ((j, rng'), e) ↦
            let fair : (j ≡ 0) ⊎ (j < bound) =
              draw_below tries bound j rng rng' (mod-lt (suc k + 1) (omega arith)) e in
            let cut : bound ≤ suc k + 1 = mod-le (suc k + 1) word in
            let low : j < x.rows = ground arith in
            elim (Bool-cases (j == suc k)) [
              | inl same ↦
                  elim (shuffle_from_lem tries room x y k mem rng' size labels fits (omega arith)) [
                    | exhausted d out ↦
                        exhausted (rw (drawn_perm, e, d) refl)
                          (rw (shuffle_from, e, same, out) refl)
                    | permuted mem' rng'' τ d out p ↦
                        permuted mem' rng'' (λ r. swapped (suc k) j (τ r))
                          (rw (drawn_perm, e, d) refl) (rw (shuffle_from, e, same, out) refl)
                          (Shuffled-swapped_self ops x y mem mem' (suc k) j τ (ground (arith, same))
                            p)
                  ]
              | inr other ↦
                  let (mem1, swaps, first) =
                    swap_both_lem ops room x y (suc k) j mem size labels fits h low in
                  elim (shuffle_from_lem tries room x y k mem1 rng' first.sized first.labels fits
                    (omega arith)) [
                      | exhausted d out ↦
                          exhausted (rw (drawn_perm, e, d) refl)
                            (rw (shuffle_from, e, other, swaps, out) refl)
                      | permuted mem' rng'' τ d out p ↦
                          permuted mem' rng'' (λ r. swapped (suc k) j (τ r))
                            (rw (drawn_perm, e, d) refl)
                            (rw (shuffle_from, e, other, swaps, out) refl)
                            (twice-Shuffled ops x y mem mem1 mem' (swapped (suc k) j) τ first p)
                    ]
            ]
      ]

  last_row : (rows : ℕ) → 0 < rows → rows < size_mod → (rows + (size_mod - 1)) % size_mod ≡ rows - 1
  last_row rows some_row few = omega arith

  has_labels :
      (mem : Memory F) (x : MatX) (y : Option MatX)
      → AreLabels ops mem x y
      → fits_labels ops x y ≡ true
  has_labels mem x none labels = refl
  has_labels mem x (some y) (size, apart, there, same) = ground arith

  -- What dataset_shuffle can answer.
  pub data Answer (tries : ℕ) (malloc : ℕ → Bool) (x : MatX) (y : Option MatX) (rng : Rng)
      (mem : Memory F) (out : Option (ErrorCode × Memory F × Option Rng)) : Type 0 where
    no_memory :
        malloc (max_cols ops x y * float_size) ≡ false
        → out ≡ some (nomem, mem, some rng)
        → Answer tries malloc x y rng mem out
    out_of_draws :
        drawn_perm tries (x.rows - 1) rng ≡ none → out ≡ none → Answer tries malloc x y rng mem out
    shuffled :
        (mem' : Memory F) (rng' : Rng) (σ : ℕ → ℕ)
        → drawn_perm tries (x.rows - 1) rng ≡ some (σ, rng')
        → out ≡ some (ok, mem', some rng')
        → Shuffled ops x y mem mem' σ
        → Answer tries malloc x y rng mem out

  -- On a matrix with at least one row and fewer than 2 ^ 64, whose buffer has its size, and on labels, if
  -- any, with as many rows and a buffer of their own, where the bytes of a row are fewer than
  -- 2 ^ 64: dataset_shuffle gives ERR_OK, and row r of the features and row r of the labels are what
  -- row σ r was, for the permutation σ that Fisher-Yates makes of the draws of rng_range_u32, and no
  -- other buffer changes, nor is tmp written past its end; or ERR_NOMEM and memory as it was, if
  -- malloc gave nothing; or a draw was rejected as often as there are tries.
  pub shuffle_lem :
      (tries : ℕ) (malloc : ℕ → Bool) (x : MatX) (y : Option MatX) (rng : Rng) (mem : Memory F)
      → x.buf ≢ 0
      → 0 < x.rows
      → x.rows < size_mod
      → max_cols ops x y * float_size < size_mod
      → IsSized ops mem x
      → AreLabels ops mem x y
      → Answer tries malloc x y rng mem (shuffle ops tries malloc (some x) y (some rng) mem)
  unfolding shuffle
  shuffle_lem tries malloc x y rng mem there some_row few narrow size labels =
      let here : (x.buf == 0) ≡ false = ground arith in
      let start : (x.rows + (size_mod - 1)) % size_mod ≡ x.rows - 1 =
        last_row x.rows some_row few in
      let bytes : max_cols ops x y * float_size % size_mod ≡ max_cols ops x y * float_size =
        mod-eq_of_lt narrow in
      let room : max_cols ops x y * float_size / float_size ≡ max_cols ops x y = omega arith in
      let labelled = has_labels mem x y labels in
      elim (Bool-cases (malloc (max_cols ops x y * float_size))) [
        | inr f ↦ no_memory f (simp (shuffle, here, labelled, bytes, f))
        | inl t ↦
            elim (shuffle_from_lem tries (max_cols ops x y) x y (x.rows - 1) mem rng size labels
              (omega arith) (omega (arith, some_row))) [
                | exhausted d h ↦
                    out_of_draws d (simp (shuffle, here, labelled, bytes, t, room, start, h))
                | permuted mem' rng' σ d h p ↦
                    shuffled mem' rng' σ d
                      (simp (shuffle, here, labelled, bytes, t, room, start, h)) p
              ]
      ]
