-- ===== src/Containers/RingBuf/Inv.antt =====
-- The representation invariant of `RingBuf`: no index wraps as a `size_t`, none leaves the
-- storage, and `ringbuf_init` establishes it.
use c_comprehensive_template.Prelude.{
  ℕ, ◌+◌, ◌*◌, ◌%◌, ◌≤◌, ◌<◌, ◌^◌, ◌≡◌, ap, Option, none, some, List, [], length, arith,
  Option-cases, inl, inr,
}
use c_comprehensive_template.Bytes.{Block, add_size, slot}
use c_comprehensive_template.Bytes.Heap.{IsMalloc, product_bound}
use c_comprehensive_template.Bytes.Window.{window}
use c_comprehensive_template.Core.Error.{ok}
use c_comprehensive_template.Containers.RingBuf.{RingBuf, tail_index, init}

abbrev pub block : RingBuf → Block
block r = elim r.bytes [ none ↦ [] | some b ↦ b ]

-- The elements held, oldest first.
abbrev pub contents : RingBuf → List Block
contents r = window (slot (block r) r.elem_size) r.capacity r.head r.len

pub record IsValid (r : RingBuf) : Type 0 where
  pub storage : r.bytes ≡ some (block r)
  pub fits : r.capacity * r.elem_size ≤ length (block r)
  pub wide : 0 < r.elem_size
  pub small : r.capacity < 2 ^ 63
  pub head_in : r.head < r.capacity
  pub len_in : r.len ≤ r.capacity

module _ {r : RingBuf} (v : IsValid r) where
  sum_small : add_size r.head r.len ≡ r.head + r.len
  sum_small = omega arith

  pub tail_lem : tail_index r ≡ (r.head + r.len) % r.capacity
  tail_lem = ap (λ k. k % r.capacity) sum_small

  pub next_lem : add_size r.head 1 % r.capacity ≡ (r.head + 1) % r.capacity
  next_lem = let e : add_size r.head 1 ≡ r.head + 1 = omega arith in ap (λ k. k % r.capacity) e

  pub len_lem : r.len < r.capacity → add_size r.len 1 ≡ r.len + 1
  len_lem h = omega arith

  -- The slots that push, push_overwrite and pop touch lie in the storage.
  pub in_bounds :
      (tail_index r < r.capacity)
      × (tail_index r * r.elem_size + r.elem_size ≤ length (block r))
      × (r.head * r.elem_size + r.elem_size ≤ length (block r))
  in_bounds = let low : tail_index r < r.capacity = omega arith in (low, grind arith, grind arith)

-- A ring that ringbuf_init accepted is valid, empty, and has the sizes that were asked for.
pub init-IsValid :
    (malloc : ℕ → Option Block) (r r' : RingBuf) (es n : ℕ)
    → IsMalloc malloc
    → init malloc (some r) es n ≡ (ok, some r')
    → IsValid r' × (contents r' ≡ []) × (r'.capacity ≡ n) × (r'.elem_size ≡ es)
unfolding init
init-IsValid malloc r r' es n good h = elim (Option-cases (malloc (n * es))) [
  | inl e ↦ ground (arith, e)
  | inr (b, e) ↦
      ground (arith, e, good.sized (n * es) b e, product_bound n es, good.bounded (n * es) b e)
]
