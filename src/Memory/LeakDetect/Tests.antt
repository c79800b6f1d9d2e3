-- ===== src/Memory/LeakDetect/Tests.antt =====
-- A detector that holds one allocation.
use c_comprehensive_template.Prelude.{◌≡◌, refl, true, List, [], ◌∷◌, arith, inr}
use c_comprehensive_template.Memory.LeakDetect.{
  Detector, AllocRecord, free, record_remove, unlink, realloc, made,
}
use c_comprehensive_template.Memory.LeakDetect.Move.{Moved, realloc_lem}
use c_comprehensive_template.Memory.LeakDetect.Track.{IsValid, size_of}

abbrev first : AllocRecord
first = record { ptr = 4096; size = 24; file = 700; line = 12 }

abbrev one : Detector
one = record { head = first ∷ []; total_allocs = 3; total_frees = 2 }

one-IsValid : IsValid one
unfolding size_of
one-IsValid = record { distinct = (refl, tt); counted = omega arith; small = omega arith }

free-one : free one 4096 ≡ record { head = []; total_allocs = 3; total_frees = 3 }
unfolding free record_remove unlink
free-one = refl

realloc_example :
    (rs' : List AllocRecord) × (realloc true 8192 700 20 one 4096 48
      ≡ (8192, record one { head = rs' }))
    × IsValid (record one { head = rs' })
    × Moved one.head 4096 (made true 8192 700 20 48) rs'
unfolding size_of
realloc_example =
    realloc_lem one-IsValid true 4096 8192 48 700 20 (omega arith) (omega arith) (λ e. cc)
      (inr refl)
