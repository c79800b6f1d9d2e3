-- ===== src/Hpc/Parallel/Reduce.antt =====
-- parallel_reduce against a single call of the map function.
use c_comprehensive_template.Prelude.{ℕ, ◌<◌, ◌≡◌}

module _ {A : Type 0} (zero_value : A) (fn : ℕ → ℕ → A) (reduce : A → A → A) where
  -- The result for a range is that of its two parts.
  abbrev pub Splits : Type 0
  Splits = (a b c : ℕ) → a < b → b < c → reduce (fn a b) (fn b c) ≡ fn a c
