-- ===== src/Memory/Arena/Tests.antt =====
-- An arena of 100 bytes at address 4096, 5 bytes in use.
use c_comprehensive_template.Prelude.{◌+◌, ◌≡◌, refl, some, [], ◌∷◌, arith}
use c_comprehensive_template.Core.Error.{invalid_arg}
use c_comprehensive_template.Memory.Arena.{Arena, init, alloc}
use c_comprehensive_template.Memory.Arena.Bounds.{
  IsValid, Outcome, alloc_lem, run, Packed, run-Packed,
}

abbrev sample : Arena
sample = record { buf = 4096; capacity = 100; pos = 5 }

sample-IsValid : IsValid sample
sample-IsValid = record { owned = omega arith; small = omega arith; used = omega arith }

alloc_runs :
    (alloc (some sample) 10 16 ≡ (4112, some (record sample { pos = 26 })))
    × (alloc (some sample) 90 16 ≡ (0, some sample))
    × (alloc (some sample) 10 12 ≡ (0, some sample))
unfolding alloc
alloc_runs = (refl, refl, refl)

init_runs : (init (λ n. 4096) (some sample) 0).0 ≡ invalid_arg
unfolding init
init_runs = refl

alloc_example : Outcome sample 10 16 (alloc (some sample) 10 16)
alloc_example = alloc_lem sample-IsValid 10 4 (omega arith) (omega arith)

run_example :
    Packed (4096 + 5) (run sample ((10, 4) ∷ (3, 0) ∷ (200, 3) ∷ (8, 3) ∷ [])) (4096 + 100)
run_example =
    run-Packed sample ((10, 4) ∷ (3, 0) ∷ (200, 3) ∷ (8, 3) ∷ []) sample-IsValid (omega arith)
