-- ===== src/Containers/RingBuf/Refine.antt =====
-- A valid ring behaves as the bounded queue of the elements that it holds.
use c_comprehensive_template.Prelude.{
  ℕ, suc, ◌+◌, ◌-◌, ◌%◌, ◌<◌, ◌≡◌, ◌≢◌, refl, ap, sym, ◌∙◌, Option, none, some, List, [], ◌∷◌, ◌++◌,
  length, arith, Bool-cases, ◌==◌, Bool, ℕ_discrete, inl, inr, if◌then◌else◌,
}
use c_comprehensive_template.Bytes.{
  Block, add_size, slot, set_slot, length-set_slot, slot-set_slot_self, slot-set_slot_ne,
}
use c_comprehensive_template.Bytes.Window.{
  window, length-window, window_uncons, window-push, mod_once, wrap_shift,
}
use c_comprehensive_template.Core.Error.{ErrorCode}
use c_comprehensive_template.Containers.Queue
use c_comprehensive_template.Containers.RingBuf.{RingBuf, tail_index, push, push_overwrite, pop}
use c_comprehensive_template.Containers.RingBuf.Inv.{
  IsValid, block, contents, tail_lem, next_lem, len_lem, in_bounds,
}

-- `r'` is a valid ring of the same shape as `r` that holds `q`.
pub record Holds (r : RingBuf) (q : List Block) (r' : RingBuf) : Type 0 where
  pub valid : IsValid r'
  pub elements : contents r' ≡ q
  pub same_capacity : r'.capacity ≡ r.capacity
  pub same_size : r'.elem_size ≡ r.elem_size

abbrev pub Refines : RingBuf → ErrorCode × Option RingBuf → ErrorCode × List Block → Type 0
Refines r out spec = (r' : RingBuf) × (out ≡ (spec.0, some r')) × Holds r spec.1 r'

-- The ring after an element was stored at slot t.
abbrev stored : RingBuf → ℕ → Block → RingBuf
stored r t x = record r { bytes = some (set_slot (block r) r.elem_size t x) }

pub length-contents : (r : RingBuf) → length (contents r) ≡ r.len
length-contents r = length-window (slot (block r) r.elem_size) r.capacity r.head r.len

module _ {r : RingBuf} (v : IsValid r) (x : Block) (e : length x ≡ r.elem_size) where
  stored_self :
      (t : ℕ) → t < r.capacity → slot (set_slot (block r) r.elem_size t x) r.elem_size t ≡ x
  stored_self t h = slot-set_slot_self (block r) r.elem_size t x r.capacity h v.fits e

  unfoldable pub pushed : RingBuf
  pushed = record (stored r (tail_index r) x) { len = add_size r.len 1 }

  pub pushed-Holds : r.len < r.capacity → Holds r (contents r ++ x ∷ []) pushed
  unfolding pushed
  pushed-Holds room = record {
    valid = record {
      storage = refl;
      fits = omega (arith, v.fits, length-set_slot (block r) r.elem_size (tail_index r) x);
      wide = v.wide;
      small = v.small;
      head_in = v.head_in;
      len_in = omega (arith, len_lem v room);
    };
    elements = rw (len_lem v room) (grow (r.len + 1) (omega arith));
    same_capacity = refl;
    same_size = refl;
  }
    where
      f : ℕ → Block
      f = slot (block r) r.elem_size

      g : ℕ → Block
      g = slot (set_slot (block r) r.elem_size (tail_index r) x) r.elem_size

      grow : (n : ℕ) → n ≡ suc r.len → window g r.capacity r.head n ≡ contents r ++ x ∷ []
      grow n q = rw q (
          window-push f g r.capacity (tail_index r) x
            (slot-set_slot_ne (block r) r.elem_size (tail_index r) x)
            (stored_self (tail_index r) (in_bounds v).0) r.head r.len v.head_in room (tail_lem v))

  -- ringbuf_push returns the code of the bounded queue's push and leaves a valid ring of the same
  -- shape that holds the queue's new elements.
  pub push-Refines : Refines r (push (some r) (some x)) (Queue.push r.capacity (contents r) x)
  unfolding push Queue.push
  push-Refines = elim (Bool-cases (r.len == r.capacity)) [
    | inl full ↦
        (r, ground (arith, v.storage, length-contents r), ground (arith, v, length-contents r))
    | inr room ↦ (
      pushed,
      unfold pushed in ground (arith, v.storage, length-contents r),
      ground (arith, pushed-Holds, length-contents r, v.len_in),
    )
  ]

  overwritten : RingBuf
  overwritten = record (stored r r.head x) { head = add_size r.head 1 % r.capacity }

  round_trip : (h n m : ℕ) → h < m → m ≡ suc n → h ≡ ((h + 1) % m + n) % m
  round_trip h n m hh e =
      sym (wrap_shift h n m ∙ ap (λ k. (h + k) % m) (sym e) ∙ (grind (arith, mod_once (h + m) m)))

  overwritten-Holds : r.len ≡ r.capacity → Holds r (Queue.behead (contents r) ++ x ∷ []) overwritten
  unfolding overwritten
  overwritten-Holds full = record {
    valid = record {
      storage = refl;
      fits = omega (arith, v.fits, length-set_slot (block r) r.elem_size r.head x);
      wide = v.wide;
      small = v.small;
      head_in = omega (arith, next_lem v);
      len_in = v.len_in;
    };
    elements =
        rw (next_lem v) (rotate r.len (r.len - 1) (omega arith) refl ∙ ap (λ w. w ++ x ∷ []) rest);
    same_capacity = refl;
    same_size = refl;
  }
    where
      f : ℕ → Block
      f = slot (block r) r.elem_size

      g : ℕ → Block
      g = slot (set_slot (block r) r.elem_size r.head x) r.elem_size

      next : ℕ
      next = (r.head + 1) % r.capacity

      rotate :
          (n m : ℕ)
          → n ≡ suc m
          → m ≡ r.len - 1
          → window g r.capacity next n ≡ window f r.capacity next m ++ x ∷ []
      rotate n m q p = rw q (
          window-push f g r.capacity r.head x (slot-set_slot_ne (block r) r.elem_size r.head x)
            (stored_self r.head v.head_in) next m (omega arith) (omega arith)
            (round_trip r.head m r.capacity v.head_in (omega arith)))

      rest : window f r.capacity next (r.len - 1) ≡ Queue.behead (contents r)
      rest = ap Queue.behead (sym (window_uncons f r.capacity r.head r.len (omega arith)))

  -- ringbuf_push_overwrite always succeeds: a full ring loses its oldest element for the new one.
  pub push_overwrite-Refines :
      Refines r (push_overwrite (some r) (some x)) (Queue.push_overwrite r.capacity (contents r) x)
  unfolding push_overwrite Queue.push_overwrite push
  push_overwrite-Refines = elim (Bool-cases (r.len == r.capacity)) [
    | inl full ↦ (
      overwritten,
      unfold overwritten in ground (arith, v.storage),
      ground (arith, overwritten-Holds, length-contents r),
    )
    | inr room ↦ (
      pushed,
      unfold pushed in ground (arith, v.storage, v.len_in),
      ground (arith, pushed-Holds, length-contents r, v.len_in),
    )
  ]

-- The ring after its oldest element was taken.
abbrev pub popped : RingBuf → RingBuf
popped r = record r { head = add_size r.head 1 % r.capacity; len = r.len - 1 }

pub popped-Holds :
    {r : RingBuf}
    → IsValid r
    → r.len ≢ 0
    → (contents r ≡ slot (block r) r.elem_size r.head ∷ contents (popped r))
      × Holds r (contents (popped r)) (popped r)
popped-Holds {r} v ne = (
  window_uncons (slot (block r) r.elem_size) r.capacity r.head r.len ne
      ∙ ap
          (λ i.
            slot (block r) r.elem_size r.head
            ∷ window (slot (block r) r.elem_size) r.capacity i (r.len - 1))
          (sym (next_lem v)),
  record {
    valid = ground (arith, v, next_lem v);
    elements = refl;
    same_capacity = refl;
    same_size = refl;
  },
)

-- ringbuf_pop returns the code and the element of the queue's pop (copied out only if `out` is not
-- NULL) and leaves a valid ring of the same shape that holds the rest.
pub pop_refines :
    {r : RingBuf}
    → IsValid r
    → (wants : Bool)
    → (r' : RingBuf) × (pop (some r) wants ≡ (
      (Queue.pop (contents r)).0,
      (if wants then (Queue.pop (contents r)).1 else none),
      some r',
    ))
      × Holds r (Queue.pop (contents r)).2 r'
unfolding pop Queue.pop
pop_refines {r} v wants = elim (ℕ_discrete r.len 0) [
  | yes e ↦ (r, ground (arith, v.storage), ground (arith, v))
  | no ne ↦
      let (split, h) = popped-Holds v ne in
      (
        popped r,
        ground (arith, v.storage, split),
        record {
          valid = h.valid;
          elements = ap (λ q. (Queue.pop q).2) (sym split);
          same_capacity = refl;
          same_size = refl;
        },
      )
]
