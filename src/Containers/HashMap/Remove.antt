-- ===== src/Containers/HashMap/Remove.antt =====
-- `hashmap_remove` on a valid map.
use c_comprehensive_template.Prelude.{
  ℕ, ◌+◌, ◌-◌, ◌≡◌, refl, inl, inr, true, false, Option, none, some, List, set, arith,
  if◌then◌else◌,
}
use c_comprehensive_template.Bytes.{same_text}
use c_comprehensive_template.Core.Error.{ErrorCode, ok, not_found}
use c_comprehensive_template.Containers.HashMap.{Key, null, Slot, HashMap, is_live, remove}
use c_comprehensive_template.Containers.HashMap.Slots.{
  holds, at, has_key, count, count-set, holds-live, holds-dead, holds_of_key, scan,
}
use c_comprehensive_template.Containers.HashMap.Table.{IsTable, IsTable-set, scan-set}
use c_comprehensive_template.Containers.HashMap.Valid.{IsValid, Found, find_live_lem}

-- What a remove gives back: a valid map without the key, or the same map if the key was not there.
pub data Outcome (m : HashMap) (ss : List Slot) (k : Key) (out : ErrorCode × Option HashMap)
    : Type 0 where
  removed :
      (ss' : List Slot) (m' : HashMap)
      → out ≡ (ok, some m')
      → IsValid m' ss'
      → m'.len + 1 ≡ m.len
      → ((q : Key) → scan q ss' ≡ (if same_text k q then none else scan q ss))
      → Outcome m ss k out
  absent : out ≡ (not_found, some m) → scan k ss ≡ none → Outcome m ss k out

module _ {m : HashMap} {ss : List Slot} (w : IsValid m ss) (k : Key) (i : ℕ)
    (f : Found ss m.capacity k i) where
  tombstone : Slot
  tombstone = record (at ss i) { dead = true; value = null }

  tombstone-holds : (q : Key) → holds q tombstone ≡ false
  unfolding tombstone
  tombstone-holds q = holds-dead q tombstone (ground arith)

  IsTable-removed : IsTable (set ss i tombstone) m.capacity
  IsTable-removed =
      IsTable-set w.table i f.inside tombstone (unfold tombstone in ground (arith, f.live))
        (λ q h. absurd (cc (tombstone-holds q))) (λ q j ne h. tombstone-holds q)

  removed-scan :
      (q : Key) → scan q (set ss i tombstone) ≡ (if same_text k q then none else scan q ss)
  removed-scan q =
      let key : (at ss i).key ≡ some k = (holds-live k (at ss i) f.held).1 in
      let alive : (at ss i).dead ≡ false = ground (arith, f.live) in
      ground (
        arith,
        scan-set w.table i f.inside tombstone IsTable-removed q,
        tombstone-holds q,
        holds_of_key q k (at ss i) key alive,
      )

  shrunk : HashMap
  shrunk = record m { slots = some (set ss i tombstone); len = m.len - 1 }

  len-shrunk : m.len ≡ count is_live (set ss i tombstone) + 1
  unfolding tombstone
  len-shrunk =
      ground
        (arith, w.len_count, f.live, count-set is_live ss i tombstone (rw w.table.width f.inside))

  shrunk-IsValid : IsValid shrunk (set ss i tombstone)
  unfolding shrunk
  shrunk-IsValid = record {
    storage = refl;
    table = IsTable-removed;
    small = w.small;
    used_count =
        unfold tombstone in
        ground (
          arith,
          w.used_count,
          f.live,
          count-set has_key ss i tombstone (rw w.table.width f.inside),
        );
    len_count = omega (arith, len-shrunk);
    roomy = w.roomy;
  }

-- On a valid map hashmap_remove takes the key away and nothing else, keeps the map valid and counts
-- one entry less; it answers ERR_NOT_FOUND exactly if the key has no value, and changes nothing then.
pub remove_lem :
    {m : HashMap} {ss : List Slot} (w : IsValid m ss) (k : Key)
    → Outcome m ss k (remove (some m) (some k))
remove_lem {m} {ss} w k = elim (find_live_lem w k) [
  | inl (i, e, f) ↦
      removed (set ss i (tombstone w k i f)) (shrunk w k i f)
        (unfold remove tombstone shrunk in ground (arith, w.storage, e)) (shrunk-IsValid w k i f)
        (unfold shrunk in omega (arith, len-shrunk w k i f)) (removed-scan w k i f)
  | inr (e, _, nothing) ↦ absent (unfold remove in ground (arith, w.storage, e)) nothing
]
