-- ===== src/Containers/RingBuf/Tests.antt =====
-- A ring of two-byte elements in which the next slot wraps.
use c_comprehensive_template.Prelude.{◌≡◌, refl, none, some, List, [], ◌∷◌, arith, replicate}
use c_comprehensive_template.Bytes.{Block, slot, set_slot}
use c_comprehensive_template.Core.Error.{ok, overflow}
use c_comprehensive_template.Containers.RingBuf.{RingBuf, push, push_overwrite, pop}
use c_comprehensive_template.Containers.RingBuf.Inv.{IsValid, contents}
use c_comprehensive_template.Containers.RingBuf.Run.{
  Op, put, force, get, run, run_queue, run_refines,
}

abbrev wrapped : RingBuf
wrapped = record {
  bytes = some (5 ∷ 6 ∷ 0 ∷ 0 ∷ 3 ∷ 4 ∷ []);
  elem_size = 2;
  capacity = 3;
  head = 2;
  len = 2;
}

abbrev pair : Block
pair = 8 ∷ 9 ∷ []

wrapped-IsValid : IsValid wrapped
wrapped-IsValid = record {
  storage = refl;
  fits = omega arith;
  wide = omega arith;
  small = omega arith;
  head_in = omega arith;
  len_in = omega arith;
}

contents-wrapped : contents wrapped ≡ (3 ∷ 4 ∷ []) ∷ (5 ∷ 6 ∷ []) ∷ []
unfolding slot
contents-wrapped = refl

abbrev script : List Op
script = put pair ∷ put pair ∷ force pair ∷ get ∷ get ∷ []

run-wrapped :
    run (some wrapped) script
    ≡ (ok, none) ∷ (overflow, none) ∷ (ok, none) ∷ (ok, some (5 ∷ 6 ∷ [])) ∷ (ok, some pair) ∷ []
unfolding run push push_overwrite pop slot set_slot
run-wrapped = refl

init_ring : RingBuf
init_ring = record { bytes = some (replicate 6 0); elem_size = 2; capacity = 3; head = 0; len = 0 }

run_refines_example : run (some wrapped) script ≡ run_queue 3 (contents wrapped) script
run_refines_example = run_refines script wrapped wrapped-IsValid (omega arith)
