-- ===== src/Containers/Vec/Tests.antt =====
-- A vector of two-byte elements on a heap of a kilobyte.
use c_comprehensive_template.Prelude.{◌≡◌, refl, some, [], ◌∷◌, arith}
use c_comprehensive_template.Bytes.{Block, set_slot}
use c_comprehensive_template.Core.Error.{ok}
use c_comprehensive_template.Memory.Allocator.{allocator_libc}
use c_comprehensive_template.Memory.Sample.{small_realloc, small_realloc-IsRealloc}
use c_comprehensive_template.Containers.Vec.{Vec, push_vec, reserve_vec, append, grow}
use c_comprehensive_template.Containers.Vec.Inv.{IsValid}
use c_comprehensive_template.Containers.Vec.Grow.{Pushed, vec_push_lem}

-- One element in room for one: the next push moves it.
abbrev full : Vec
full = record {
  bytes = some (5 ∷ 6 ∷ []);
  len = 1;
  capacity = 1;
  elem_size = 2;
  alloc = some (allocator_libc small_realloc);
}

full-IsValid : IsValid full small_realloc
full-IsValid = record {
  heap = (allocator_libc small_realloc, refl, refl);
  wide = omega arith;
  fits = refl;
  small = omega arith;
  len_in = omega arith;
  storage = λ p. refl;
}

abbrev pair : Block
pair = 8 ∷ 9 ∷ []

push-full :
    push_vec full pair
    ≡ (ok, record full { bytes = some (5 ∷ 6 ∷ 8 ∷ 9 ∷ []); len = 2; capacity = 2 })
unfolding push_vec reserve_vec grow append set_slot
push-full = refl

vec_push_example : Pushed full small_realloc pair (push_vec full pair)
vec_push_example = vec_push_lem small_realloc-IsRealloc full-IsValid pair refl
