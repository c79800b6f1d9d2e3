-- ===== src/Containers/HashMap.antt =====
-- include/containers/hashmap.h and src/containers/hashmap.c: open addressing with linear probing
-- and tombstones. Keys are the bytes of C strings, values are pointers, which the map does not
-- look through. `none` as the result of an operation is a NULL pointer that the code dereferences.
pub mod Slots
pub mod Probe
pub mod Table
pub mod Insert
pub mod Rehash
pub mod Valid
pub mod Put
pub mod Remove
pub mod Iterate
mod Tests
use Prim.Native.Nat.{bit_and}
use c_comprehensive_template.Prelude.{
  ℕ, zero, suc, ◌+◌, ◌-◌, ◌*◌, ◌/◌, ◌%◌, ◌^◌, ◌<◌, ◌≡◌, Bool, true, false, not, ◌&&◌, Option, none,
  some, List, [], ◌∷◌, replicate, get_or, drop, set, ltb, if◌then◌else◌, size_max, size_mod,
}
use c_comprehensive_template.Bytes.{Block, same_text}
use c_comprehensive_template.Core.Error.{ErrorCode, ok, nomem, invalid_arg, overflow, not_found}
use c_comprehensive_template.Containers.Hash.{fnv1a_str}

abbrev pub Key : Type 0
Key = Block

abbrev pub Ptr : Type 0
Ptr = ℕ

abbrev pub null : Ptr
null = 0

-- No key: never used; a key and `dead`: a tombstone.
pub record Slot : Type 0 where
  pub key : Option Key
  pub value : Ptr
  pub dead : Bool

pub record HashMap : Type 0 where
  pub slots : Option (List Slot)
  pub capacity : ℕ
  pub len : ℕ
  pub used : ℕ

-- A zeroed slot.
abbrev pub empty : Slot
empty = record { key = none; value = null; dead = false }

abbrev pub initial_cap : ℕ
initial_cap = 16

-- calloc for slots and strdup, with what C promises of a pointer that is not NULL: zeroed slots,
-- 24 bytes each, within PTRDIFF_MAX, and a copy of the text.
pub record Allocator : Type 0 where
  pub calloc : ℕ → Option (List Slot)
  pub strdup : Key → Option Key
  pub zeroed : (n : ℕ) (ss : List Slot) → calloc n ≡ some ss → ss ≡ replicate n empty
  pub bounded : (n : ℕ) (ss : List Slot) → calloc n ≡ some ss → n * 24 < 2 ^ 63
  pub copied : (k c : Key) → strdup k ≡ some c → c ≡ k

-- s->key && !s->dead
abbrev pub is_live : Slot → Bool
is_live s = elim s.key [ none ↦ false | some k ↦ not s.dead ]

-- `first_tombstone`, unless it is not set yet.
abbrev pub first_free : Option ℕ → ℕ → Option ℕ
first_free none i = some i
first_free (some t) i = some t

-- The loop of `probe`, with the rounds left: a pointer to a slot is its index.
unfoldable pub probe_from : ℕ → List Slot → ℕ → Key → ℕ → Option ℕ → Option ℕ
probe_from zero ss n q i tomb = tomb
probe_from (suc rounds) ss n q i tomb =
    let s = get_or ss i empty in
    let rest =
      probe_from rounds ss n q (bit_and (i + 1) (n - 1))
        (if s.dead then first_free tomb i else tomb) in
    elim s.key [
      | none ↦ first_free tomb i
      | some k ↦ if s.dead then rest else if same_text k q then some i else rest
    ]

-- Where probing for a key starts in a table of n slots.
unfoldable pub home : Key → ℕ → ℕ
home q n = bit_and (fnv1a_str (some q)) (n - 1)

unfoldable pub probe : List Slot → ℕ → Key → Option ℕ
probe ss n q = probe_from n ss n q (home q n) none

-- The loop of `rehash` over the old slots, into a fresh table of n slots.
unfoldable pub move_live : ℕ → List Slot → List Slot → Option (List Slot)
move_live n [] fresh = some fresh
move_live n (s ∷ ss) fresh = elim s.key [
  | none ↦ move_live n ss fresh
  | some k ↦ elim s.dead [
    | true ↦ move_live n ss fresh
    | false ↦ elim (probe fresh n k) [
      | none ↦ none
      | some j ↦
          move_live n ss
            (set fresh j (record (get_or fresh j empty) { key = some k; value = s.value }))
    ]
  ]
]

-- (m->used + 1) * 4 > m->cap * 3
abbrev pub is_crowded : HashMap → Bool
is_crowded m = ltb (m.capacity * 3 % size_mod) ((m.used + 1) * 4 % size_mod)

module _ (a : Allocator) where
  unfoldable pub init : Option HashMap → ErrorCode × Option HashMap
  init none = (invalid_arg, none)
  init (some m) = elim (a.calloc initial_cap) [
    | none ↦ (nomem, some (record m { slots = none }))
    | some ss ↦ (ok, some (record { slots = some ss; capacity = initial_cap; len = 0; used = 0 }))
  ]

  unfoldable pub rehash : HashMap → List Slot → ℕ → Option (ErrorCode × HashMap)
  rehash m old n = elim (a.calloc n) [
    | none ↦ some (nomem, m)
    | some fresh ↦ elim (move_live n old fresh) [
      | none ↦ none
      | some ss ↦ some (ok, record m { slots = some ss; capacity = n; used = m.len })
    ]
  ]

  -- `hashmap_put` from its `probe` on.
  unfoldable pub place : HashMap → List Slot → Key → Ptr → Option (ErrorCode × HashMap)
  place m ss k v = elim (probe ss m.capacity k) [
    | none ↦ none
    | some i ↦
        let s = get_or ss i empty in
        if is_live s
        then some (ok, record m { slots = some (set ss i (record s { value = v })) })
        else elim (a.strdup k) [
          | none ↦ some (nomem, m)
          | some copy ↦ some (
            ok,
            record m {
              slots = some (set ss i (record { key = some copy; value = v; dead = false }));
              len = m.len + 1;
              used = elim s.key [ none ↦ m.used + 1 | some old ↦ m.used ];
            },
          )
        ]
  ]

  unfoldable pub put_key : HashMap → List Slot → Key → Ptr → Option (ErrorCode × HashMap)
  put_key m ss k v =
      if ltb (size_max / 4 - 1) m.used
      then some (overflow, m)
      else if is_crowded m
      then (if ltb (size_max / 2) m.capacity
          then some (overflow, m)
          else elim (rehash m ss (m.capacity * 2)) [
            | none ↦ none
            | some (e, m') ↦ elim e [
              | ok ↦ elim m'.slots [ none ↦ none | some ss' ↦ place m' ss' k v ]
              | refused ↦ some (refused, m')
            ]
          ])
      else place m ss k v

  unfoldable pub put : Option HashMap → Option Key → Ptr → Option (ErrorCode × Option HashMap)
  put none key v = some (invalid_arg, none)
  put (some m) key v = elim m.slots [
    | none ↦ some (invalid_arg, some m)
    | some ss ↦ elim key [
      | none ↦ some (invalid_arg, some m)
      | some k ↦ elim (put_key m ss k v) [ none ↦ none | some (e, m') ↦ some (e, some m') ]
    ]
  ]

-- Index of the live slot for a key, or NULL.
unfoldable pub find_live : Option HashMap → Option Key → Option ℕ
find_live none key = none
find_live (some m) key = elim m.slots [
  | none ↦ none
  | some ss ↦ elim key [
    | none ↦ none
    | some k ↦ elim (probe ss m.capacity k) [
      | none ↦ none
      | some i ↦ if is_live (get_or ss i empty) then some i else none
    ]
  ]
]

-- The slot array behind a map pointer.
abbrev pub slots_of : Option HashMap → List Slot
slots_of none = []
slots_of (some m) = elim m.slots [ none ↦ [] | some ss ↦ ss ]

unfoldable pub get : Option HashMap → Option Key → Ptr
get m key = elim (find_live m key) [ none ↦ null | some i ↦ (get_or (slots_of m) i empty).value ]

unfoldable pub contains : Option HashMap → Option Key → Bool
contains m key = elim (find_live m key) [ none ↦ false | some i ↦ true ]

unfoldable pub remove : Option HashMap → Option Key → ErrorCode × Option HashMap
remove none key = (invalid_arg, none)
remove (some m) key = elim m.slots [
  | none ↦ (invalid_arg, some m)
  | some ss ↦ elim key [
    | none ↦ (invalid_arg, some m)
    | some k ↦ elim (find_live (some m) (some k)) [
      | none ↦ (not_found, some m)
      | some i ↦ (
        ok,
        some (record m {
          slots = some (set ss i (record (get_or ss i empty) { dead = true; value = null }));
          len = m.len - 1;
        }),
      )
    ]
  ]
]

unfoldable pub len : Option HashMap → ℕ
len none = 0
len (some m) = m.len

pub destroy : Option HashMap → Option HashMap
destroy none = none
destroy (some m) = elim m.slots [
  | none ↦ some m
  | some ss ↦ some (record { slots = none; capacity = 0; len = 0; used = 0 })
]

-- The loop of `hashmap_next` from index i, with the slots left: the live entry found, if any, and
-- the iterator afterwards.
unfoldable pub next_from : List Slot → ℕ → Option (Key × Ptr) × ℕ
next_from [] i = (none, i)
next_from (s ∷ ss) i =
    let rest = next_from ss (i + 1) in
    elim s.key [ none ↦ rest | some k ↦ if s.dead then rest else (some (k, s.value), i + 1) ]

-- `it` is the iterator's index; the map's slots from there on are read.
unfoldable pub next : Option HashMap → Option ℕ → Option (Key × Ptr) × Option ℕ
next none it = (none, it)
next (some m) it = elim m.slots [
  | none ↦ (none, it)
  | some ss ↦ elim it [
    | none ↦ (none, none)
    | some i ↦ let (out, j) = next_from (drop i ss) i in (out, some j)
  ]
]
