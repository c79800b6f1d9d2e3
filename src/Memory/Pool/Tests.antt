-- ===== src/Memory/Pool/Tests.antt =====
-- A pool of two blocks of five bytes, which become eight.
use c_comprehensive_template.Prelude.{ℕ, ◌≡◌, ◌≢◌, ◌⊎◌, refl, [], ◌∷◌, ◌<◌, some, arith}
use c_comprehensive_template.Core.Error.{ok}
use c_comprehensive_template.Memory.Pool.{Ptr, Memory, store, Pool, link, init, alloc}
use c_comprehensive_template.Memory.Pool.Chain.{NotIn, Distinct, IsBlock, AllBlocks}
use c_comprehensive_template.Memory.Pool.Live.{Live, Steps, stay, then, allocates, writes}
use c_comprehensive_template.Memory.Pool.Safe.{pool-Safe}

abbrev malloc : ℕ → Ptr
malloc n = 4096

abbrev raw : Pool
raw = record { buf = 0; block_size = 0; block_count = 0; free_list = 0 }

abbrev blank : Memory
blank a = 0

abbrev ready : Pool
ready = record { buf = 4096; block_size = 8; block_count = 2; free_list = 4096 }

abbrev linked : Memory
linked = (link 2 4096 8 blank 0).0

abbrev taken : Live
taken = record { pool = record ready { free_list = 4104 }; mem = linked; used = 4096 ∷ [] }

abbrev written : Live
written = record taken { mem = store linked 4096 7 }

init_runs : init malloc (some raw) 5 2 blank ≡ (ok, some ready, linked)
unfolding init link
init_runs = refl

-- A pointer read 2 bytes before the start of one that was written.
overlaps : store blank 4096 1027 4094 ≡ 67305472
unfolding store
overlaps = refl

uses : Steps (record { pool = ready; mem = linked; used = [] }) written
unfolding alloc link store
uses =
    then _ taken _
      (then _ _ _ (stay _) (
        allocates (record { pool = ready; mem = linked; used = [] }) 4096
          (record ready { free_list = 4104 }) refl (λ z. absurd (omega (arith, z)))))
      (writes taken 4096 0 7 [] [] refl (omega arith))

pool-Safe_example :
    Distinct (4096 ∷ [])
    × AllBlocks 4096 8 2 (4096 ∷ [])
    × (((◌≡◌ {A = ℕ} 1 2) × ((alloc (some written.pool) written.mem).0 ≡ 0))
        ⊎ ((1 < 2)
            × ((alloc (some written.pool) written.mem).0 ≢ 0)
            × IsBlock 4096 8 2 (alloc (some written.pool) written.mem).0
            × NotIn (alloc (some written.pool) written.mem).0 (4096 ∷ [])))
pool-Safe_example =
    pool-Safe malloc raw ready 5 2 blank linked written (omega arith) (omega arith) (omega arith)
      init_runs uses
