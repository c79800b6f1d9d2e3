-- ===== src/Containers/Vec/Grow.antt =====
-- vec_push, vec_pop and vec_at on the list of elements that a valid vector holds.
use c_comprehensive_template.Prelude.{
  ℕ, suc, ◌*◌, ◌/◌, ◌<◌, ◌^◌, ◌≡◌, refl, ap, ap₂, sym, ◌∙◌, none, [], ◌∷◌, ◌++◌, length, arith,
  size_max, ℕ_discrete,
}
use c_comprehensive_template.Bytes.{
  Block, add_size, slot, set_slot, length-set_slot, slot-set_slot_self, slot-set_slot_ne,
}
use c_comprehensive_template.Bytes.Heap.{product_bound}
use c_comprehensive_template.Core.Error.{ErrorCode, ok, nomem, overflow}
use c_comprehensive_template.Memory.Allocator.{Realloc, IsRealloc, bytes_of}
use c_comprehensive_template.Containers.Vec.{Vec, reserve_vec, append, new_cap, push_vec}
use c_comprehensive_template.Containers.Vec.Elements.{elements, elements_congr}
use c_comprehensive_template.Containers.Vec.Inv.{
  IsValid, contents, enough, grown, too_big, no_memory, reserve_lem,
}

module _ {v : Vec} {r : Realloc} (i : IsValid v r) (x : Block) (size : length x ≡ v.elem_size) where
  block_append :
      v.len < v.capacity
      → bytes_of (append v x).bytes ≡ set_slot (bytes_of v.bytes) v.elem_size v.len x
  unfolding append
  block_append room = let stored = i.storage (omega arith) in ground (arith, stored)

  append-IsValid : v.len < v.capacity → IsValid (append v x) r
  unfolding append
  append-IsValid room = record {
    heap = i.heap;
    wide = i.wide;
    fits =
        ap length (block_append room)
        ∙ length-set_slot (bytes_of v.bytes) v.elem_size v.len x
        ∙ i.fits;
    small = i.small;
    len_in = omega arith;
    storage = λ p. let stored = i.storage p in ground (arith, stored);
  }

  contents-append : v.len < v.capacity → contents (append v x) ≡ contents v ++ x ∷ []
  unfolding append
  contents-append room =
      let es : ℕ = v.elem_size in
      let mem : Block = bytes_of v.bytes in
      let mem' : Block = set_slot mem es v.len x in
      let cap_small : v.capacity < 2 ^ 63 = product_bound v.capacity es i.wide i.small in
      let exact : add_size v.len 1 ≡ suc v.len = omega arith in
      ap (λ b. elements (slot b es) (add_size v.len 1)) (block_append room)
      ∙ ap (elements (slot mem' es)) exact
      ∙ ap₂ (λ w y. w ++ y ∷ [])
          (elements_congr (slot mem es) (slot mem' es) v.len
            (λ j h. slot-set_slot_ne mem es v.len x j (omega arith)))
          (slot-set_slot_self mem es v.len x v.capacity room (omega (arith, i.fits)) size)

-- What vec_push does: the element at the end, or a refusal of a full vector that changes nothing,
-- because doubling overflows or the heap has no memory.
pub data Pushed (v : Vec) (r : Realloc) (x : Block) (out : ErrorCode × Vec) : Type 0 where
  stored :
      (v' : Vec)
      → out ≡ (ok, v')
      → IsValid v' r
      → v'.elem_size ≡ v.elem_size
      → contents v' ≡ contents v ++ x ∷ []
      → Pushed v r x out
  too_large :
      out ≡ (overflow, v)
      → v.len ≡ v.capacity
      → size_max / v.elem_size < new_cap v.capacity
      → Pushed v r x out
  no_room :
      out ≡ (nomem, v)
      → v.len ≡ v.capacity
      → r v.bytes (new_cap v.capacity * v.elem_size) ≡ none
      → Pushed v r x out

module _ {v : Vec} {r : Realloc} (good : IsRealloc r) (i : IsValid v r) (x : Block)
    (size : length x ≡ v.elem_size) where
  larger : v.capacity < new_cap v.capacity
  larger =
      let cap_small : v.capacity < 2 ^ 63 = product_bound v.capacity v.elem_size i.wide i.small in
      ground arith

  push_runs_spare : v.len < v.capacity → push_vec v x ≡ (ok, append v x)
  unfolding push_vec
  push_runs_spare room = ground (arith, i.wide)

  push_runs_full :
      (e : ErrorCode) (v' : Vec)
      → v.len ≡ v.capacity
      → reserve_vec v (new_cap v.capacity) ≡ (e, v')
      → push_vec v x ≡ elim e [ ok ↦ (ok, append v' x) | refused ↦ (refused, v') ]
  unfolding push_vec
  push_runs_full e v' full runs = ground (arith, i.wide, larger)

  -- On a valid vector vec_push of an element of the right size appends it and keeps the vector
  -- valid; it refuses, and changes nothing, only a full vector whose doubled storage overflows a
  -- size_t (ERR_OVERFLOW) or that the heap has no memory for (ERR_NOMEM).
  pub vec_push_lem : Pushed v r x (push_vec v x)
  vec_push_lem = elim (ℕ_discrete v.len v.capacity) [
    | no spare ↦
        let room : v.len < v.capacity = omega (arith, i.len_in) in
        stored (append v x) (push_runs_spare room) (append-IsValid i x size room)
          (unfold append in refl) (contents-append i x size room)
    | yes full ↦ elim (reserve_lem good i (new_cap v.capacity)) [
      | enough e low ↦ absurd (omega (arith, larger))
      | too_big e big ↦ too_large (push_runs_full overflow v full e) full big
      | no_memory e failed ↦ no_room (push_runs_full nomem v full e) full failed
      | grown v' e j same_cap same_len same_size same ↦
          let room : v'.len < v'.capacity = omega (arith, larger) in
          stored (append v' x) (push_runs_full ok v' full e)
            (append-IsValid j x (size ∙ sym same_size) room) (unfold append in same_size)
            (contents-append j x (size ∙ sym same_size) room ∙ ap (λ l. l ++ x ∷ []) same)
    ]
  ]
