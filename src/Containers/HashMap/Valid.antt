-- ===== src/Containers/HashMap/Valid.antt =====
-- The invariant of the map, which `hashmap_init` establishes, and lookups in a valid map.
use c_comprehensive_template.Prelude.{
  ℕ, zero, suc, ◌*◌, ◌≤◌, ◌<◌, ◌^◌, ◌≡◌, refl, inl, inr, ◌⊎◌, true, false, none, some, List,
  replicate, arith, Option-cases, get_or-replicate, length-replicate,
}
use c_comprehensive_template.Core.Error.{ok}
use c_comprehensive_template.Containers.HashMap.{
  Key, null, Slot, HashMap, empty, is_live, probe, Allocator, init, initial_cap, find_live, get,
  contains,
}
use c_comprehensive_template.Containers.HashMap.Slots.{
  holds, at, has_key, count, fails_somewhere, holds-live, Absent, scan, scan-cases,
}
use c_comprehensive_template.Containers.HashMap.Probe.{n_pos}
use c_comprehensive_template.Containers.HashMap.Table.{Leads, IsTable, probe-live, probe-Absent}
use c_comprehensive_template.Containers.HashMap.Rehash.{IsFresh}

pub record IsValid (m : HashMap) (ss : List Slot) : Type 0 where
  pub storage : m.slots ≡ some ss
  pub table : IsTable ss m.capacity
  pub small : m.capacity < 2 ^ 59
  pub used_count : m.used ≡ count has_key ss
  pub len_count : m.len ≡ count is_live ss
  pub roomy : m.used * 4 ≤ m.capacity * 3

pub holds-empty : (q : Key) → holds q empty ≡ false
unfolding holds
holds-empty q = refl

pub count-replicate :
    (n : ℕ) → (count has_key (replicate n empty) ≡ 0) × (count is_live (replicate n empty) ≡ 0)
count-replicate zero = (refl, refl)
count-replicate (suc n) = omega (arith, count-replicate n)

-- Zeroed slots are a table with nothing in it.
pub IsFresh-replicate : (bits n : ℕ) → n ≡ 2 ^ bits → IsFresh (replicate n empty) n
IsFresh-replicate bits n e = record {
  table = record {
    bits = bits;
    pow = e;
    width = length-replicate n empty;
    reach = λ q i h. absurd (cc (rw (get_or-replicate n i empty) at h, holds-empty q));
  };
  clean = λ i. rw (get_or-replicate n i empty) refl;
}

pub scan-replicate : (q : Key) (n : ℕ) → scan q (replicate n empty) ≡ none
unfolding scan
scan-replicate q zero = refl
scan-replicate q (suc n) = rw (holds-empty q) (scan-replicate q n)

-- A map that hashmap_init accepted is valid and holds no key.
pub init_lem :
    (a : Allocator) (m m' : HashMap)
    → init a (some m) ≡ (ok, some m')
    → (ss : List Slot) × IsValid m' ss × ((q : Key) → scan q ss ≡ none)
unfolding init
init_lem a m m' h = elim (Option-cases (a.calloc initial_cap)) [
  | inl e ↦ absurd (ground arith)
  | inr (ss, e) ↦
      let zeroed : ss ≡ replicate 16 empty = a.zeroed 16 ss e in
      (
        replicate 16 empty,
        ground (arith, zeroed, IsFresh-replicate 4 16 refl, count-replicate 16),
        λ q. scan-replicate q 16,
      )
]

-- What `probe` finds for a key: its live slot, or a free slot where its sequence leads.
pub record Found (ss : List Slot) (n : ℕ) (k : Key) (i : ℕ) : Type 0 where
  pub probed : probe ss n k ≡ some i
  pub inside : i < n
  pub live : is_live (at ss i) ≡ true
  pub held : holds k (at ss i) ≡ true
  pub scanned : scan k ss ≡ some (at ss i).value

pub record Vacant (ss : List Slot) (n : ℕ) (k : Key) (i : ℕ) : Type 0 where
  pub probed : probe ss n k ≡ some i
  pub inside : i < n
  pub free : is_live (at ss i) ≡ false
  pub absent : Absent k ss
  pub led : Leads ss n k i
  pub scanned : scan k ss ≡ none

pub probe-cases :
    (ss : List Slot) (n : ℕ) (k : Key)
    → IsTable ss n
    → count has_key ss < n
    → ((i : ℕ) × Found ss n k i) ⊎ ((i : ℕ) × Vacant ss n k i)
probe-cases ss n k t space = elim (scan-cases k ss) [
  | inr (i, low, h, e) ↦ inl (
    i,
    record {
      probed = probe-live t k i h;
      inside = rw t.width at low;
      live = (holds-live k (at ss i) h).0;
      held = h;
      scanned = e;
    },
  )
  | inl (e, absent) ↦
      let (z, low, unused) = fails_somewhere has_key ss (rw t.width space) in
      let (i, p, inside, free, led) = probe-Absent t k z absent (rw t.width at low) unused in
      inr (
        i,
        record {
          probed = p;
          inside = inside;
          free = free;
          absent = absent;
          led = led;
          scanned = e;
        },
      )
]

module _ {m : HashMap} {ss : List Slot} (v : IsValid m ss) where
  pub spacious : count has_key ss < m.capacity
  spacious =
      omega
        (arith, v.used_count, v.roomy, v.table.pow, n_pos ss m.capacity v.table.bits v.table.pow)

  -- The live slot that find_live returns holds the key; NULL means that no slot does.
  pub find_live_lem :
      (k : Key)
      → ((i : ℕ) × (find_live (some m) (some k) ≡ some i) × Found ss m.capacity k i)
        ⊎ ((find_live (some m) (some k) ≡ none) × Absent k ss × (scan k ss ≡ none))
  unfolding find_live
  find_live_lem k = elim (probe-cases ss m.capacity k v.table spacious) [
    | inl (i, f) ↦ inl (i, ground (arith, v.storage, f.probed, f.live), f)
    | inr (i, f) ↦ inr (ground (arith, v.storage, f.probed, f.free), f.absent, f.scanned)
  ]

  -- hashmap_get returns the value stored for the key, or NULL.
  pub get_lem : (k : Key) → get (some m) (some k) ≡ elim (scan k ss) [ none ↦ null | some p ↦ p ]
  get_lem k = elim (find_live_lem k) [
    | inl (i, e, f) ↦ unfold get in ground (arith, v.storage, e, f.scanned)
    | inr (e, _, none_there) ↦ unfold get in ground (arith, e, none_there)
  ]

  -- hashmap_contains holds exactly of the keys that have a value.
  pub contains_lem :
      (k : Key) → contains (some m) (some k) ≡ elim (scan k ss) [ none ↦ false | some p ↦ true ]
  contains_lem k = elim (find_live_lem k) [
    | inl (i, e, f) ↦ unfold contains in ground (arith, e, f.scanned)
    | inr (e, _, none_there) ↦ unfold contains in ground (arith, e, none_there)
  ]
