-- ===== src/Hpc/Spsc/Calls.antt =====
-- spsc_push and spsc_pop, run by one thread alone, are runs of the steps and answer as the bounded
-- queue does.
use native.Mathlib.Nat.{le-div_iff_mul-le, mod_self}
use c_comprehensive_template.Prelude.{
  ℕ, ◌+◌, ◌-◌, ◌*◌, ◌%◌, ◌/◌, ◌≤◌, ◌<◌, ◌≡◌, refl, ap, [], ◌∷◌, length, arith, none, some, Option,
  true, false, ◌⊎◌, inl, inr, ℕ_discrete, Option-cases, size_max, size_mod,
}
use c_comprehensive_template.Bytes.{Block, slot, add_size, sub_size}
use c_comprehensive_template.Bytes.Heap.{IsMalloc, product_bound}
use c_comprehensive_template.Bytes.Window.{window}
use c_comprehensive_template.Core.Error.{ok}
use c_comprehensive_template.Hpc.Spsc.{SpscQueue, init, push, pop, len, copy_in, next_slot}
use c_comprehensive_template.Hpc.Spsc.Inv.{IsValid, block, contents, gap, length-contents}
use c_comprehensive_template.Hpc.Spsc.Step.{
  Producer, idle, loaded, free, copied, Consumer, waiting, looked, filled, taken, Shared, silent,
  pushed, refused, popped, nothing, push_load, push_full, push_free, push_copy, push_store,
  pop_load, pop_empty, pop_filled, pop_copy, pop_store, Steps, done, more,
}

abbrev pub alone : SpscQueue → Consumer → Shared
alone q c = record { queue = q; producer = idle; consumer = c }

-- spsc_push is the steps of a producer that is not interrupted, whatever the consumer is doing:
-- true if they end in a push, false if they end in a refusal.
pub push_runs :
    {q : SpscQueue} (v : IsValid q) (x : Block) (c : Consumer)
    → length x ≡ q.elem_size
    → (q' : SpscQueue) × (((push (some q) (some x) ≡ (true, some q'))
          × Steps (alone q c) (silent ∷ silent ∷ silent ∷ pushed x ∷ []) (alone q' c))
        ⊎ ((push (some q) (some x) ≡ (false, some q'))
            × Steps (alone q c) (silent ∷ refused ∷ []) (alone q' c)))
unfolding push
push_runs {q} v x c size = elim (ℕ_discrete (next_slot q.tail q.slots) q.head) [
  | yes full ↦ (
    q,
    inr (
      ground (arith, v.storage),
      more _ _ _ _ _ (push_load (alone q c) x refl size)
          (more _ _ _ _ _ (push_full (at (loaded x q.tail)) x q.tail refl full) (done (alone q c))),
    ),
  )
  | no room ↦
      let next : ℕ = next_slot q.tail q.slots in
      let filled_slot : Shared = record (alone (copy_in q q.tail x) c) {
        producer = copied x q.tail next;
      } in
      let q' : SpscQueue = record (copy_in q q.tail x) { tail = next } in
      (
        q',
        inl (
          ground (arith, v.storage),
          more _ _ _ _ _ (push_load (alone q c) x refl size) (
              more _ _ _ _ _ (push_free (at (loaded x q.tail)) x q.tail refl room) (
                more _ _ _ _ _ (push_copy (at (free x q.tail next)) x q.tail next refl) (
                  more _ _ _ _ _ (push_store filled_slot x q.tail next refl) (done (alone q' c))))),
        ),
      )
]
  where
    at : Producer → Shared
    at p = record (alone q c) { producer = p }

abbrev pub meanwhile : SpscQueue → Producer → Shared
meanwhile q p = record { queue = q; producer = p; consumer = waiting }

-- spsc_pop is the steps of a consumer that is not interrupted, whatever the producer is doing.
pub pop_runs :
    {q : SpscQueue} (v : IsValid q) (p : Producer)
    → (q' : SpscQueue) × (((x : Block) × (pop (some q) true ≡ (true, some x, some q'))
          × Steps (meanwhile q p) (silent ∷ silent ∷ silent ∷ popped x ∷ []) (meanwhile q' p))
        ⊎ ((pop (some q) true ≡ (false, none, some q'))
            × Steps (meanwhile q p) (silent ∷ nothing ∷ []) (meanwhile q' p)))
unfolding pop
pop_runs {q} v p = elim (ℕ_discrete q.head q.tail) [
  | yes empty ↦ (
    q,
    inr (
      ground (arith, v.storage),
      more _ _ _ _ _ (pop_load (meanwhile q p) refl) (
          more _ _ _ _ _ (pop_empty (at (looked q.head)) q.head refl empty) (done (meanwhile q p))),
    ),
  )
  | no some_there ↦
      let x : Block = slot (block q) q.elem_size q.head in
      let q' : SpscQueue = record q { head = next_slot q.head q.slots } in
      (
        q',
        inl (
          x,
          ground (arith, v.storage),
          more _ _ _ _ _ (pop_load (meanwhile q p) refl) (
              more _ _ _ _ _ (pop_filled (at (looked q.head)) q.head refl some_there) (
                more _ _ _ _ _
                  (pop_copy (at (filled q.head)) q.head x refl (ground (arith, v.storage)))
                  (more _ _ _ _ _ (pop_store (at (taken q.head x)) q.head x refl)
                    (done (meanwhile q' p))))),
        ),
      )
]
  where
    at : Consumer → Shared
    at c = record (meanwhile q p) { consumer = c }

-- spsc_len of a valid queue that no other thread changes is the number of its elements.
pub spsc_len_lem : {q : SpscQueue} → IsValid q → len (some q) ≡ length (contents q)
unfolding len
spsc_len_lem {q} v =
    let plain : sub_size (add_size q.tail q.slots) q.head ≡ q.tail + q.slots - q.head =
      omega (arith, v.small, v.head_in, v.tail_in) in
    ground (arith, v.storage, length-contents q, ap (λ k. k % q.slots) plain)

-- The overflow test of spsc_init leaves only sizes that do not wrap.
no_wrap :
    (es n : ℕ)
    → 0 < es
    → n + 1 ≤ size_max / es
    → (add_size n 1 ≡ n + 1) × (add_size n 1 * es % size_mod ≡ (n + 1) * es)
no_wrap es n pos h =
    let total : (n + 1) * es ≤ size_max =
      (le-div_iff_mul-le {k = es} {x = n + 1} {y = size_max} pos).0 h in
    let low : n + 1 ≤ size_max = grind arith in
    let same : add_size n 1 ≡ n + 1 = omega arith in (same, rw same (omega arith))

fresh : (q : SpscQueue) → q.head ≡ 0 → q.tail ≡ 0 → contents q ≡ []
fresh q h t =
    let e : gap q.slots q.head q.tail ≡ 0 = ground (arith, mod_self q.slots) in
    ap (window (slot (block q) q.elem_size) q.slots q.head) e

-- A queue that spsc_init accepted, for a capacity below SIZE_MAX, is valid, empty and has room for
-- as many elements as were asked for.
pub spsc_init-IsValid :
    (malloc : ℕ → Option Block) (q q' : SpscQueue) (es n : ℕ)
    → IsMalloc malloc
    → n < size_max
    → init malloc (some q) es n ≡ (ok, some q')
    → IsValid q' × (contents q' ≡ []) × (q'.slots - 1 ≡ n) × (q'.elem_size ≡ es)
unfolding init
spsc_init-IsValid malloc q q' es n good small h =
    elim (Option-cases (malloc (add_size n 1 * es % size_mod))) [
      | inl e ↦ ground (arith, e)
      | inr (b, e) ↦
          let bytes = add_size n 1 * es % size_mod in
          ground (
            arith,
            e,
            good.sized bytes b e,
            good.bounded bytes b e,
            no_wrap es n,
            product_bound (n + 1) es,
            fresh q',
          )
    ]
