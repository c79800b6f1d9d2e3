-- ===== src/Containers/Vec/Read.antt =====
-- vec_init_a, vec_pop and vec_at on the list of elements that a valid vector holds.
use c_comprehensive_template.Prelude.{
  ℕ, ◌-◌, ◌<◌, ◌≡◌, ◌≢◌, refl, Option, none, some, [], ◌∷◌, ◌++◌, arith, Bool, if◌then◌else◌, inl,
  inr, get_elem?, dec_lt, ℕ_discrete, Option-cases,
}
use c_comprehensive_template.Bytes.{Block, slot, read_at}
use c_comprehensive_template.Core.Error.{ErrorCode, ok, not_found, invalid_arg}
use c_comprehensive_template.Memory.Allocator.{Allocator, Realloc, bytes_of}
use c_comprehensive_template.Containers.Vec.{Vec, init_a, pop, vec_at, vec_heap}
use c_comprehensive_template.Containers.Vec.Elements.{
  length-elements, elements_unsnoc, get_elem?-elements, get_elem?-outside,
}
use c_comprehensive_template.Containers.Vec.Inv.{IsValid, contents}

-- What vec_pop does: the last element, or an error of an empty vector that changes nothing.
pub data Popped (v : Vec) (r : Realloc) (wants : Bool) (out : ErrorCode × Option Block × Option Vec)
    : Type 0 where
  empty :
      (e : ErrorCode) → out ≡ (e, none, some v) → e ≢ ok → contents v ≡ [] → Popped v r wants out
  taken :
      (v' : Vec) (x : Block)
      → out ≡ (ok, (if wants then some x else none), some v')
      → IsValid v' r
      → contents v ≡ contents v' ++ x ∷ []
      → Popped v r wants out

module _ {v : Vec} {r : Realloc} (i : IsValid v r) where
  -- vec_pop of a valid vector takes its last element off, copies it out if `out` is not NULL, and
  -- leaves a valid vector; it fails exactly if there is no element.
  pub vec_pop_lem : (wants : Bool) → Popped v r wants (pop (some v) wants)
  unfolding pop
  vec_pop_lem wants = elim (ℕ_discrete v.len 0) [
    | yes nil ↦ elim (Option-cases v.bytes) [
      | inl e ↦ empty invalid_arg (ground (arith, e)) (λ p. cc) (rw nil refl)
      | inr (b, e) ↦ empty not_found (ground (arith, e, nil)) (λ p. cc) (rw nil refl)
    ]
    | no some_there ↦
        let len_in = i.len_in in
        let stored = i.storage (omega arith) in
        taken (record v { len = v.len - 1 }) (slot (bytes_of v.bytes) v.elem_size (v.len - 1))
          (ground (arith, stored))
          (record {
            heap = i.heap;
            wide = i.wide;
            fits = i.fits;
            small = i.small;
            len_in = omega arith;
            storage = i.storage;
          })
          (elements_unsnoc (slot (bytes_of v.bytes) v.elem_size) v.len some_there)
  ]

  -- vec_at gives the place of the element at an index, or NULL past the end.
  pub vec_at_lem :
      (k : ℕ)
      → elim (vec_at (some v) k) [
        | none ↦ none
        | some off ↦ some (read_at (bytes_of v.bytes) off v.elem_size)
      ]
        ≡ get_elem? (contents v) k
  unfolding vec_at slot
  vec_at_lem k = elim (dec_lt k v.len) [
    | yes low ↦
        let len_in = i.len_in in
        let stored = i.storage (omega arith) in
        ground (arith, stored, get_elem?-elements (slot (bytes_of v.bytes) v.elem_size) v.len k low)
    | no high ↦
        let outside =
          get_elem?-outside (contents v) k
            (omega (arith, length-elements (slot (bytes_of v.bytes) v.elem_size) v.len)) in
        elim (Option-cases v.bytes) [
          | inl e ↦ ground (arith, e, outside)
          | inr (b, e) ↦ ground (arith, e, outside)
        ]
  ]

vec_heap-cases :
    (libc : Realloc) (alloc : Option Allocator) (a : Allocator)
    → vec_heap libc alloc ≡ some a
    → (r : Realloc) × (a.realloc ≡ some r)
vec_heap-cases libc none a e = (libc, ground (arith, e))
vec_heap-cases libc (some b) a e = elim (Option-cases b.realloc) [
  | inl p ↦ absurd (ground (arith, p))
  | inr (r, p) ↦ (r, ground (arith, p))
]

init_runs :
    (libc : Realloc) (v v' : Vec) (es : ℕ) (alloc : Option Allocator) (a : Allocator)
    → vec_heap libc alloc ≡ some a
    → init_a libc (some v) es alloc ≡ (ok, some v')
    → (0 < es)
      × (v' ≡ record { bytes = none; len = 0; capacity = 0; elem_size = es; alloc = some a })
unfolding init_a
init_runs libc v v' es alloc a e h = ground (arith, e)

-- A vector that vec_init_a accepted is valid for its heap's realloc, empty, and of the element
-- size asked for.
pub vec_init_lem :
    (libc : Realloc) (v v' : Vec) (es : ℕ) (alloc : Option Allocator)
    → init_a libc (some v) es alloc ≡ (ok, some v')
    → ((r : Realloc) × IsValid v' r) × (contents v' ≡ []) × (v'.elem_size ≡ es)
unfolding init_a
vec_init_lem libc v v' es alloc h = elim (Option-cases (vec_heap libc alloc)) [
  | inl e ↦ absurd (ground (arith, e))
  | inr (a, e) ↦
      let (r, heap) = vec_heap-cases libc alloc a e in
      let (pos, same) = init_runs libc v v' es alloc a e h in
      rw same (
        (
          (
            r,
            record {
              heap = (a, refl, heap);
              wide = pos;
              fits = omega arith;
              small = omega arith;
              len_in = omega arith;
              storage = λ p. absurd (p refl);
            },
          ),
          refl,
          refl,
        ))
]
