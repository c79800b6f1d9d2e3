-- ===== src/Hpc/Parallel/Tests.antt =====
-- Ten indices on four threads, the third of which cannot be created.
use c_comprehensive_template.Prelude.{ℕ, ◌-◌, ◌≡◌, refl, Bool, true, not, ◌==◌, [], ◌∷◌}
use c_comprehensive_template.Hpc.Parallel.{spawned, inline, chunks_from, parallel_for}

abbrev third_fails : ℕ → Bool
third_fails i = not (i == 2)

abbrev width : ℕ → ℕ → ℕ
width a b = b - a

runs :
    parallel_for third_fails true 10 4
    ≡ record { runner = spawned; start = 0; end = 3 }
      ∷ record { runner = spawned; start = 3; end = 6 }
      ∷ record { runner = inline; start = 6; end = 8 }
      ∷ record { runner = spawned; start = 8; end = 10 }
      ∷ []
unfolding parallel_for chunks_from
runs = refl
