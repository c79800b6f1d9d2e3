-- ===== src/Hpc/Spsc/Inv.antt =====
-- The representation invariant of `SpscQueue` and the elements it holds; its functions, run by one
-- thread, are those of the bounded queue.
use c_comprehensive_template.Prelude.{
  ℕ, suc, ◌+◌, ◌-◌, ◌*◌, ◌%◌, ◌≤◌, ◌<◌, ◌^◌, ◌≡◌, ◌≢◌, ◌↔◌, ap, sym, ◌∙◌, none, some, List, [], ◌∷◌,
  ◌++◌, length, arith, ltb, if◌then◌else◌,
}
use c_comprehensive_template.Bytes.{
  Block, slot, set_slot, length-set_slot, slot-set_slot_self, slot-set_slot_ne,
}
use c_comprehensive_template.Bytes.Window.{
  window, length-window, window-snoc, mod_once, window_congr,
}
use c_comprehensive_template.Hpc.Spsc.{SpscQueue, copy_in, next_slot}

abbrev pub block : SpscQueue → Block
block q = elim q.bytes [ none ↦ [] | some b ↦ b ]

-- How many elements are between two positions.
abbrev pub gap : ℕ → ℕ → ℕ → ℕ
gap slots head tail = (tail + slots - head) % slots

-- The elements held, oldest first.
abbrev pub contents : SpscQueue → List Block
contents q = window (slot (block q) q.elem_size) q.slots q.head (gap q.slots q.head q.tail)

pub record IsValid (q : SpscQueue) : Type 0 where
  pub storage : q.bytes ≡ some (block q)
  pub fits : q.slots * q.elem_size ≤ length (block q)
  pub wide : 0 < q.elem_size
  pub several : 1 < q.slots
  pub small : q.slots < 2 ^ 63
  pub head_in : q.head < q.slots
  pub tail_in : q.tail < q.slots

pub length-contents : (q : SpscQueue) → length (contents q) ≡ gap q.slots q.head q.tail
length-contents q =
    length-window (slot (block q) q.elem_size) q.slots q.head (gap q.slots q.head q.tail)

-- Steps around the ring of `n` slots.
module _ (n h t : ℕ) (several : 1 < n) (small : n < 2 ^ 63) (hh : h < n) (ht : t < n) where
  pub next_lem : next_slot t n ≡ (if ltb (t + 1) n then t + 1 else 0)
  next_lem = ground (arith, mod_once (t + 1) n)

  pub next_in : next_slot t n < n
  next_in = omega arith

  pub next_injective : next_slot h n ≡ next_slot t n → h ≡ t
  next_injective e = ground (arith, mod_once (h + 1) n, mod_once (t + 1) n)

  pub gap_lem : gap n h t ≡ (if ltb t h then t + n - h else t - h)
  gap_lem = ground (arith, mod_once (t + n - h) n)

  pub reach : (h + gap n h t) % n ≡ t
  reach = ground (arith, gap_lem, mod_once (h + gap n h t) n)

  -- The last free slot is never filled, so that equal positions mean an empty queue.
  pub full_iff : (next_slot t n ≡ h) ↔ (gap n h t ≡ n - 1)
  full_iff = ground (arith, gap_lem, next_lem)

  pub empty_iff : (h ≡ t) ↔ (gap n h t ≡ 0)
  empty_iff = ground (arith, gap_lem)

  pub gap-push : next_slot t n ≢ h → gap n h (next_slot t n) ≡ suc (gap n h t)
  gap-push room = ground (arith, gap_lem, next_lem, mod_once (next_slot t n + n - h) n)

  pub gap-pop : h ≢ t → gap n h t ≡ suc (gap n (next_slot h n) t)
  gap-pop some_there =
      ground (arith, gap_lem, mod_once (h + 1) n, mod_once (t + n - next_slot h n) n)

module _ {q : SpscQueue} (v : IsValid q) where
  -- Storing the next position publishes what the tail's slot holds.
  pub contents-store :
      next_slot q.tail q.slots ≢ q.head
      → contents (record q { tail = next_slot q.tail q.slots })
        ≡ contents q ++ slot (block q) q.elem_size q.tail ∷ []
  contents-store room =
      let f : ℕ → Block = slot (block q) q.elem_size in
      ap (window f q.slots q.head)
        (gap-push q.slots q.head q.tail v.several v.small v.head_in v.tail_in room)
      ∙ window-snoc f q.slots q.head (gap q.slots q.head q.tail) v.head_in
      ∙ ap (λ i. contents q ++ f i ∷ [])
          (reach q.slots q.head q.tail v.several v.small v.head_in v.tail_in)

  copy_block : (i : ℕ) (x : Block) → block (copy_in q i x) ≡ set_slot (block q) q.elem_size i x
  copy_block i x = ground (arith, v.storage)

  pub slot-copy_in :
      (x : Block)
      → length x ≡ q.elem_size
      → slot (block (copy_in q q.tail x)) q.elem_size q.tail ≡ x
  slot-copy_in x e =
      ap (λ b. slot b q.elem_size q.tail) (copy_block q.tail x)
      ∙ slot-set_slot_self (block q) q.elem_size q.tail x q.slots v.tail_in v.fits e

  -- The other slots keep their bytes.
  pub slot-copy_in_ne :
      (x : Block) (i : ℕ)
      → i ≢ q.tail
      → slot (block (copy_in q q.tail x)) q.elem_size i ≡ slot (block q) q.elem_size i
  slot-copy_in_ne x i h =
      ap (λ b. slot b q.elem_size i) (copy_block q.tail x)
      ∙ slot-set_slot_ne (block q) q.elem_size q.tail x i h

  pub copy_in-IsValid : (x : Block) → IsValid (copy_in q q.tail x)
  copy_in-IsValid x = record {
    storage = ground (arith, v.storage);
    fits = omega (
      arith,
      v.fits,
      ap length (copy_block q.tail x),
      length-set_slot (block q) q.elem_size q.tail x,
    );
    wide = v.wide;
    several = v.several;
    small = v.small;
    head_in = v.head_in;
    tail_in = v.tail_in;
  }

  -- Copying into the tail's slot touches no element of the queue.
  pub contents-copy_in : (x : Block) → contents (copy_in q q.tail x) ≡ contents q
  contents-copy_in x =
      let f : ℕ → Block = slot (block q) q.elem_size in
      ap (λ b. window (slot b q.elem_size) q.slots q.head (gap q.slots q.head q.tail))
        (copy_block q.tail x)
      ∙ window_congr f (slot (set_slot (block q) q.elem_size q.tail x) q.elem_size) q.slots q.tail
          (slot-set_slot_ne (block q) q.elem_size q.tail x) q.head (gap q.slots q.head q.tail)
          (gap q.slots q.head q.tail) v.head_in (omega arith) (omega (arith, v.several))
          (sym (reach q.slots q.head q.tail v.several v.small v.head_in v.tail_in))

  pub contents_uncons :
      q.head ≢ q.tail
      → contents q
        ≡ slot (block q) q.elem_size q.head
          ∷ contents (record q { head = next_slot q.head q.slots })
  contents_uncons some_there =
      let f : ℕ → Block = slot (block q) q.elem_size in
      let next : next_slot q.head q.slots ≡ (q.head + 1) % q.slots =
        ap (λ k. k % q.slots) (omega (arith, v.small, v.head_in)) in
      let left : ℕ = gap q.slots (next_slot q.head q.slots) q.tail in
      ap (window f q.slots q.head)
        (gap-pop q.slots q.head q.tail v.several v.small v.head_in v.tail_in some_there)
      ∙ ap (λ i. f q.head ∷ window f q.slots i left) (sym next)
