-- ===== src/Containers/Vec/Inv.antt =====
-- The representation invariant of `Vec`, and how storage grows.
use native.Mathlib.Nat.{mul-le-mul_right}
use c_comprehensive_template.Prelude.{
  ℕ, ◌+◌, ◌*◌, ◌/◌, ◌≤◌, ◌<◌, ◌^◌, ◌≡◌, ◌≢◌, refl, ap, sym, ◌∙◌, none, some, List, length, arith,
  Option-cases, inl, inr, size_max, dec_lt,
}
use c_comprehensive_template.Bytes.{Block, slot, read_at, read_at-take}
use c_comprehensive_template.Core.Error.{ErrorCode, ok, nomem, overflow}
use c_comprehensive_template.Memory.Allocator.{Allocator, Realloc, IsRealloc, bytes_of}
use c_comprehensive_template.Containers.Vec.{Vec, grow, reserve_vec}
use c_comprehensive_template.Containers.Vec.Elements.{elements, elements_congr}

abbrev pub contents : Vec → List Block
contents v = elements (slot (bytes_of v.bytes) v.elem_size) v.len

-- A vector whose heap reallocates with `r`.
pub record IsValid (v : Vec) (r : Realloc) : Type 0 where
  pub heap : (a : Allocator) × (v.alloc ≡ some a) × (a.realloc ≡ some r)
  pub wide : 0 < v.elem_size
  pub fits : length (bytes_of v.bytes) ≡ v.capacity * v.elem_size
  pub small : v.capacity * v.elem_size < 2 ^ 63
  pub len_in : v.len ≤ v.capacity
  pub storage : v.capacity ≢ 0 → v.bytes ≡ some (bytes_of v.bytes)

-- What vec_reserve does for room for n elements: nothing, more storage, or a refusal for one of
-- the two reasons there are.
pub data Reserved (v : Vec) (r : Realloc) (n : ℕ) (out : ErrorCode × Vec) : Type 0 where
  enough : out ≡ (ok, v) → n ≤ v.capacity → Reserved v r n out
  grown :
      (v' : Vec)
      → out ≡ (ok, v')
      → IsValid v' r
      → v'.capacity ≡ n
      → v'.len ≡ v.len
      → v'.elem_size ≡ v.elem_size
      → contents v' ≡ contents v
      → Reserved v r n out
  too_big : out ≡ (overflow, v) → size_max / v.elem_size < n → Reserved v r n out
  no_memory : out ≡ (nomem, v) → r v.bytes (n * v.elem_size) ≡ none → Reserved v r n out

module _ {v : Vec} {r : Realloc} (good : IsRealloc r) (i : IsValid v r) where
  kept_slot :
      (n : ℕ) (b : Block)
      → r v.bytes (n * v.elem_size) ≡ some b
      → length (bytes_of v.bytes) ≤ n * v.elem_size
      → (j : ℕ) → j < v.len
      → slot b v.elem_size j ≡ slot (bytes_of v.bytes) v.elem_size j
  unfolding slot
  kept_slot n b e room j h =
      let l : ℕ = length (bytes_of v.bytes) in
      let len_in = i.len_in in
      let fits = i.fits in
      let inside : j * v.elem_size + v.elem_size ≤ l = grind arith in
      sym (read_at-take l b (j * v.elem_size) v.elem_size inside)
      ∙ ap (λ m. read_at m (j * v.elem_size) v.elem_size)
          (good.kept v.bytes (n * v.elem_size) b e room)

  bigger : Block → ℕ → Vec
  bigger b n = record v { bytes = some b; capacity = n }

  bigger-IsValid :
      (n : ℕ) (b : Block)
      → r v.bytes (n * v.elem_size) ≡ some b
      → v.capacity < n
      → IsValid (bigger b n) r
  unfolding bigger
  bigger-IsValid n b e more = record {
    heap = i.heap;
    wide = i.wide;
    fits = good.sized v.bytes (n * v.elem_size) b e;
    small = good.bounded v.bytes (n * v.elem_size) b e;
    len_in = omega (arith, i.len_in);
    storage = λ p. refl;
  }

  grow_lem : (n : ℕ) → Reserved v r n (grow v r n)
  unfolding grow
  grow_lem n = elim (dec_lt v.capacity n) [
    | no low ↦ enough (ground arith) (omega arith)
    | yes more ↦ elim (dec_lt (size_max / v.elem_size) n) [
      | yes big ↦ too_big (ground arith) big
      | no fine ↦ elim (Option-cases (r v.bytes (n * v.elem_size))) [
        | inl e ↦ no_memory (ground (arith, e)) e
        | inr (b, e) ↦
            let wide = i.wide in
            let room : length (bytes_of v.bytes) ≤ n * v.elem_size =
              rw i.fits (mul-le-mul_right v.elem_size (omega arith)) in
            grown (bigger b n) (unfold bigger in ground (arith, e)) (bigger-IsValid n b e more)
              (unfold bigger in refl) (unfold bigger in refl) (unfold bigger in refl)
              (unfold bigger in
                elements_congr (slot (bytes_of v.bytes) v.elem_size) (slot b v.elem_size) v.len
                  (kept_slot n b e room))
      ]
    ]
  ]

  reserve_runs : (n : ℕ) → reserve_vec v n ≡ grow v r n
  unfolding reserve_vec
  reserve_runs n = ground (arith, i.wide, i.heap.1, i.heap.2)

  -- On a valid vector vec_reserve either has the room, or moves the elements unchanged to storage
  -- for n elements, or refuses and changes nothing: for a size that overflows or because the heap
  -- has no memory.
  pub reserve_lem : (n : ℕ) → Reserved v r n (reserve_vec v n)
  reserve_lem n = rw (reserve_runs n) (grow_lem n)
