-- ===== src/Containers/HashMap/Tests.antt =====
-- A map of sixteen slots with three entries, built by the code itself.
use c_comprehensive_template.Prelude.{
  ℕ, ◌+◌, ◌*◌, ◌<◌, ◌^◌, ◌≡◌, refl, ◌⊎◌, Option, none, some, List, [], ◌∷◌, replicate, arith, ltb,
  if◌then◌else◌, length,
}
use c_comprehensive_template.Bytes.{same_text}
use c_comprehensive_template.Core.Error.{ErrorCode, ok, not_found}
use c_comprehensive_template.Containers.Hash.{fnv1a_str}
use c_comprehensive_template.Containers.HashMap.{
  Key, null, Slot, HashMap, empty, Allocator, probe_from, home, probe, move_live, init, rehash,
  place, put_key, put, find_live, get, contains, remove, next_from, next,
}
use c_comprehensive_template.Containers.HashMap.Slots.{scan}
use c_comprehensive_template.Containers.HashMap.Valid.{IsValid, init_lem}
use c_comprehensive_template.Containers.HashMap.Put.{Outcome, stored, refused, put_lem}
use c_comprehensive_template.Containers.HashMap.Remove
use c_comprehensive_template.Containers.HashMap.Remove.{remove_lem}
use c_comprehensive_template.Containers.HashMap.Iterate.{entries, collect, collect-eq-entries}

-- An allocator with room for a thousand slots.
abbrev small_calloc : ℕ → Option (List Slot)
small_calloc n = if ltb n 1000 then some (replicate n empty) else none

small_zeroed : (n : ℕ) (ss : List Slot) → small_calloc n ≡ some ss → ss ≡ replicate n empty
small_zeroed n ss e = ground arith

small_bounded : (n : ℕ) (ss : List Slot) → small_calloc n ≡ some ss → n * 24 < 2 ^ 63
small_bounded n ss e = ground arith

small_copied : (k c : Key) → ◌≡◌ {A = Option Key} (some k) (some c) → c ≡ k
small_copied k c e = cc

abbrev small_heap : Allocator
small_heap = record {
  calloc = small_calloc;
  strdup = some;
  zeroed = small_zeroed;
  bounded = small_bounded;
  copied = small_copied;
}

abbrev stale : HashMap
stale = record { slots = none; capacity = 0; len = 0; used = 0 }

abbrev started : HashMap
started = record { slots = some (replicate 16 empty); capacity = 16; len = 0; used = 0 }

program : Unit {0}
unfolding fnv1a_str probe_from home probe move_live init rehash place put_key put find_live get
    contains remove next_from next
program = tt

abbrev key : Key
key = b'k' ∷ []

started_lem : (ss : List Slot) × IsValid started ss × ((q : Key) → scan q ss ≡ none)
unfolding init
started_lem = init_lem small_heap stale started refl

put_example :
    (e : ErrorCode) × (m' : HashMap) × (put small_heap (some started) (some key) 7
      ≡ some (e, some m'))
    × Outcome started_lem.0 key 7 e m'
    × ((e ≡ ok) ⊎ ((◌≡◌ {A = Option Key} (some key) none) ⊎ (small_calloc 32 ≡ none)))
put_example = put_lem small_heap started_lem.1 key 7

-- The map with one entry, as hashmap_put left it.
abbrev loaded : HashMap
loaded = put_example.1

loaded-IsValid : (ss : List Slot) × IsValid loaded ss
loaded-IsValid = elim put_example.3 [ stored ss' e w s ↦ (ss', w) | refused ss' e w s ↦ (ss', w) ]

remove_example : Remove.Outcome loaded loaded-IsValid.0 key (remove (some loaded) (some key))
remove_example = remove_lem loaded-IsValid.1 key

collect_example :
    (collect (length loaded-IsValid.0 + 1) (some loaded) 0 ≡ entries loaded-IsValid.0)
    × (length (entries loaded-IsValid.0) ≡ loaded.len)
collect_example = collect-eq-entries loaded-IsValid.1

-- Two entries, one of them removed again.
abbrev after : Option (ErrorCode × Option HashMap) → Option HashMap
after none = none
after (some (e, m)) = m

abbrev session : Option HashMap
session =
    after (put small_heap (after (put small_heap (some started) (some key) 7)) (some (b'a' ∷ [])) 9)

session_reads :
    (get session (some key) ≡ 7)
    × (get (remove session (some key)).1 (some key) ≡ null)
    × (get (remove session (some key)).1 (some (b'a' ∷ [])) ≡ 9)
    × ((remove session (some (b'z' ∷ []))).0 ≡ not_found)
unfolding program same_text
session_reads = (refl, refl, refl, refl)
