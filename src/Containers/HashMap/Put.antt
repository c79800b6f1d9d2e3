-- ===== src/Containers/HashMap/Put.antt =====
-- `hashmap_put` on a valid map: it never follows a NULL pointer, fails only for want of memory,
-- keeps the map valid, and stores the value under the key and under no other.
use c_comprehensive_template.Prelude.{
  ℕ, ◌+◌, ◌-◌, ◌*◌, ◌≤◌, ◌<◌, ◌^◌, ◌/◌, ◌≡◌, refl, ap, sym, ◌∙◌, inl, inr, ◌⊎◌, true, false, none,
  some, List, [], set, suc, ◌∷◌, replicate, get_or-replicate, arith, if◌then◌else◌, Bool-cases,
  Option-cases, ltb, size_max,
}
use native.Mathlib.Nat.{pow-suc}
use c_comprehensive_template.Bytes.{same_text}
use c_comprehensive_template.Core.Error.{ErrorCode, ok, nomem}
use c_comprehensive_template.Containers.HashMap.{
  Key, Ptr, Slot, HashMap, empty, is_live, Allocator, rehash, place, move_live, is_crowded, put_key,
  put,
}
use c_comprehensive_template.Containers.HashMap.Slots.{
  holds, at, has_key, count, count-set, holds-live, holds_of_key, scan,
}
use c_comprehensive_template.Containers.HashMap.Probe.{n_pos}
use c_comprehensive_template.Containers.HashMap.Table.{IsTable, IsTable-set, scan-set, unique}
use c_comprehensive_template.Containers.HashMap.Insert.{
  IsTable-insert, scan-insert, live-insert, keyed-insert,
}
use c_comprehensive_template.Containers.HashMap.Rehash.{move_live_lem}
use c_comprehensive_template.Containers.HashMap.Valid.{
  IsValid, Found, Vacant, probe-cases, IsFresh-replicate, holds-empty, spacious, scan-replicate,
  count-replicate,
}

-- A map ready for `place`: the invariant, and room for one more used slot.
pub record IsReady (m : HashMap) (ss : List Slot) : Type 0 where
  pub storage : m.slots ≡ some ss
  pub table : IsTable ss m.capacity
  pub small : m.capacity < 2 ^ 59
  pub used_count : m.used ≡ count has_key ss
  pub len_count : m.len ≡ count is_live ss
  pub room : (m.used + 1) * 4 ≤ m.capacity * 3

-- What a put gives back: a valid map in which the key has the value, or the map that was there.
pub data Outcome (ss : List Slot) (k : Key) (v : Ptr) (e : ErrorCode) (m' : HashMap) : Type 0 where
  stored :
      (ss' : List Slot)
      → e ≡ ok
      → IsValid m' ss'
      → ((q : Key) → scan q ss' ≡ (if same_text k q then some v else scan q ss))
      → Outcome ss k v e m'
  refused :
      (ss' : List Slot)
      → e ≡ nomem
      → IsValid m' ss'
      → ((q : Key) → scan q ss' ≡ scan q ss)
      → Outcome ss k v e m'

module _ {m : HashMap} {ss : List Slot} (r : IsReady m ss) (k : Key) (v : Ptr) where
  ready-IsValid : IsValid m ss
  ready-IsValid = record {
    storage = r.storage;
    table = r.table;
    small = r.small;
    used_count = r.used_count;
    len_count = r.len_count;
    roomy = omega (arith, r.room);
  }

  -- The value of a live slot is replaced.
  module _ (i : ℕ) (f : Found ss m.capacity k i) where
    renewed : Slot
    renewed = record (at ss i) { value = v }

    renewed-holds : (q : Key) → holds q renewed ≡ holds q (at ss i)
    unfolding holds renewed
    renewed-holds q = refl

    IsTable-renewed : IsTable (set ss i renewed) m.capacity
    IsTable-renewed =
        IsTable-set r.table i f.inside renewed (unfold renewed in ground (arith, f.live))
          (λ q h. r.table.reach q i (sym (renewed-holds q) ∙ h))
          (λ q j ne h. elim (Bool-cases (holds q renewed)) [
            | inr out ↦ out
            | inl here ↦ absurd (ne (unique r.table q j i h (sym (renewed-holds q) ∙ here)))
          ])

    renewed-scan :
        (q : Key) → scan q (set ss i renewed) ≡ (if same_text k q then some v else scan q ss)
    renewed-scan q =
        let key : (at ss i).key ≡ some k = (holds-live k (at ss i) f.held).1 in
        let alive : (at ss i).dead ≡ false = ground (arith, f.live) in
        unfold renewed in
        ground (
          arith,
          scan-set r.table i f.inside renewed IsTable-renewed q,
          renewed-holds q,
          holds_of_key q k (at ss i) key alive,
        )

    renewed-IsValid : IsValid (record m { slots = some (set ss i renewed) }) (set ss i renewed)
    renewed-IsValid = record {
      storage = refl;
      table = IsTable-renewed;
      small = r.small;
      used_count =
          unfold renewed in
          ground (arith, r.used_count, count-set has_key ss i renewed (rw r.table.width f.inside));
      len_count =
          unfold renewed in
          ground (arith, r.len_count, count-set is_live ss i renewed (rw r.table.width f.inside));
      roomy = omega (arith, r.room);
    }

  -- A free slot takes the new entry.
  module _ (i : ℕ) (f : Vacant ss m.capacity k i) where
    entry : Slot
    entry = record { key = some k; value = v; dead = false }

    grown : HashMap
    grown = record m {
      slots = some (set ss i entry);
      len = m.len + 1;
      used = elim (at ss i).key [ none ↦ m.used + 1 | some old ↦ m.used ];
    }

    grown-IsValid : IsValid grown (set ss i entry)
    unfolding grown entry
    grown-IsValid = record {
      storage = refl;
      table = IsTable-insert r.table k f.absent i f.inside f.free f.led entry refl refl;
      small = r.small;
      used_count = ground (
        arith,
        r.used_count,
        keyed-insert r.table k f.absent i f.inside f.free f.led entry refl refl,
      );
      len_count = ground (
        arith,
        r.len_count,
        live-insert r.table k f.absent i f.inside f.free f.led entry refl refl,
      );
      roomy = ground (arith, r.room);
    }

    grown-scan : (q : Key) → scan q (set ss i entry) ≡ (if same_text k q then some v else scan q ss)
    unfolding entry
    grown-scan = scan-insert r.table k f.absent i f.inside f.free f.led entry refl refl

-- A live slot is a used slot.
live-le-keyed : (ss : List Slot) → count is_live ss ≤ count has_key ss
live-le-keyed [] = omega arith
live-le-keyed (s ∷ ss) = ground (arith, live-le-keyed ss)

-- In a valid map the sizes that the code tests are far from wrapping.
used_small : {m : HashMap} {ss : List Slot} → IsValid m ss → ltb (size_max / 4 - 1) m.used ≡ false
used_small w = ground arith

capacity_small :
    {m : HashMap} {ss : List Slot} → IsValid m ss → ltb (size_max / 2) m.capacity ≡ false
capacity_small w = ground arith

calm-IsReady : {m : HashMap} {ss : List Slot} → IsValid m ss → is_crowded m ≡ false → IsReady m ss
calm-IsReady {m} w calm = record {
  storage = w.storage;
  table = w.table;
  small = w.small;
  used_count = w.used_count;
  len_count = w.len_count;
  room = ground arith;
}

Outcome-same :
    {ss ss' : List Slot} {k : Key} {v : Ptr} {e : ErrorCode} {m' : HashMap}
    → ((q : Key) → scan q ss' ≡ scan q ss)
    → Outcome ss' k v e m'
    → Outcome ss k v e m'
Outcome-same {k} {v} same (stored t e w s) =
    stored t e w (λ q. s q ∙ ap (λ old. if same_text k q then some v else old) (same q))
Outcome-same same (refused t e w s) = refused t e w (λ q. s q ∙ same q)

Cause-left : {e : ErrorCode} {A B : Type 0} → (e ≡ ok) ⊎ A → (e ≡ ok) ⊎ (A ⊎ B)
Cause-left (inl h) = inl h
Cause-left (inr h) = inr (inl h)

module _ (a : Allocator) where
  -- Placing an entry in a ready map.
  pub place_lem :
      {m : HashMap} {ss : List Slot} (r : IsReady m ss) (k : Key) (v : Ptr)
      → (e : ErrorCode) × (m' : HashMap) × (place a m ss k v ≡ some (e, m'))
        × Outcome ss k v e m'
        × ((e ≡ ok) ⊎ (a.strdup k ≡ none))
  unfolding place
  place_lem {m} {ss} r k v =
      elim (probe-cases ss m.capacity k r.table (spacious (ready-IsValid r k v))) [
        | inl (i, f) ↦ (
          ok,
          record m { slots = some (set ss i (renewed r k v i f)) },
          unfold renewed in ground (arith, f.probed, f.live),
          stored (set ss i (renewed r k v i f)) refl (renewed-IsValid r k v i f)
              (renewed-scan r k v i f),
          inl refl,
        )
        | inr (i, f) ↦ elim (Option-cases (a.strdup k)) [
          | inl out ↦ (
            nomem,
            m,
            ground (arith, f.probed, f.free, out),
            refused ss refl (ready-IsValid r k v) (λ q. refl),
            inr out,
          )
          | inr (copy, e) ↦
              let same : copy ≡ k = a.copied k copy e in
              (
                ok,
                grown r k v i f,
                unfold grown entry in ground (arith, f.probed, f.free, e, same),
                stored (set ss i (entry r k v i f)) refl (grown-IsValid r k v i f)
                    (grown-scan r k v i f),
                inl refl,
              )
        ]
      ]

  rehash_runs :
      (m : HashMap) (ss fresh ss' : List Slot) (n : ℕ)
      → a.calloc n ≡ some fresh
      → move_live n ss fresh ≡ some ss'
      → rehash a m ss n ≡ some (ok, record m { slots = some ss'; capacity = n; used = m.len })
  unfolding rehash
  rehash_runs m ss fresh ss' n e moves = ground arith

  -- The table that rehash leaves in place of a valid map's: the same entries, ready for one more.
  rehash_lem :
      {m : HashMap} {ss fresh : List Slot} (w : IsValid m ss)
      → a.calloc (m.capacity * 2) ≡ some fresh
      → (ss' : List Slot) × (rehash a m ss (m.capacity * 2)
          ≡ some (ok, record m { slots = some ss'; capacity = m.capacity * 2; used = m.len }))
        × IsReady (record m { slots = some ss'; capacity = m.capacity * 2; used = m.len }) ss'
        × ((q : Key) → scan q ss' ≡ scan q ss)
  rehash_lem {m} {ss} {fresh} w e =
      let n : ℕ = m.capacity * 2 in
      let zeroed : fresh ≡ replicate n empty = a.zeroed n fresh e in
      let few = live-le-keyed ss in
      let power : n ≡ 2 ^ suc w.table.bits = omega (arith, w.table.pow, pow-suc 2 w.table.bits) in
      let positive = n_pos ss m.capacity w.table.bits w.table.pow in
      let nothing = count-replicate n in
      let (ss', moves, g) =
        move_live_lem n ss (replicate n empty) (IsFresh-replicate (suc w.table.bits) n power)
          (unique w.table) (λ q i j h h'. cc (holds-empty q, rw (get_or-replicate n j empty) at h'))
          (omega arith) in
      (
        ss',
        rehash_runs m ss fresh ss' n e (rw zeroed moves),
        record {
          storage = refl;
          table = g.is_fresh.table;
          small = omega (arith, a.bounded n fresh e);
          used_count = omega (arith, g.keyed, w.len_count);
          len_count = omega (arith, g.live, w.len_count);
          room = omega arith;
        },
        λ q. g.entries q ∙ ground (arith, scan-replicate q n),
      )

  -- hashmap_put's tests, one lemma for each way through them.
  put_direct :
      (m : HashMap) (ss : List Slot) (k : Key) (v : Ptr)
      → ltb (size_max / 4 - 1) m.used ≡ false
      → is_crowded m ≡ false
      → put_key a m ss k v ≡ place a m ss k v
  unfolding put_key
  put_direct m ss k v fits calm = ground arith

  put_starved :
      (m : HashMap) (ss : List Slot) (k : Key) (v : Ptr)
      → ltb (size_max / 4 - 1) m.used ≡ false
      → is_crowded m ≡ true
      → ltb (size_max / 2) m.capacity ≡ false
      → a.calloc (m.capacity * 2) ≡ none
      → put_key a m ss k v ≡ some (nomem, m)
  unfolding put_key rehash
  put_starved m ss k v fits crowded low out = ground arith

  put_grown :
      (m : HashMap) (ss ss' : List Slot) (m' : HashMap) (k : Key) (v : Ptr)
      → ltb (size_max / 4 - 1) m.used ≡ false
      → is_crowded m ≡ true
      → ltb (size_max / 2) m.capacity ≡ false
      → rehash a m ss (m.capacity * 2) ≡ some (ok, m')
      → m'.slots ≡ some ss'
      → put_key a m ss k v ≡ place a m' ss' k v
  unfolding put_key
  put_grown m ss ss' m' k v fits crowded low runs e = ground arith

  put_runs :
      (m : HashMap) (ss : List Slot) (k : Key) (v : Ptr) (e : ErrorCode) (m' : HashMap)
      → m.slots ≡ some ss
      → put_key a m ss k v ≡ some (e, m')
      → put a (some m) (some k) v ≡ some (e, some m')
  unfolding put
  put_runs m ss k v e m' h runs = ground arith

  -- On a valid map hashmap_put stores the value under the key and under no other and keeps the map
  -- valid; otherwise it answers ERR_NOMEM, with a valid map of the same entries, because the
  -- allocator gave NULL. It never follows a NULL pointer.
  pub put_lem :
      {m : HashMap} {ss : List Slot} (w : IsValid m ss) (k : Key) (v : Ptr)
      → (e : ErrorCode) × (m' : HashMap) × (put a (some m) (some k) v ≡ some (e, some m'))
        × Outcome ss k v e m'
        × ((e ≡ ok) ⊎ ((a.strdup k ≡ none) ⊎ (a.calloc (m.capacity * 2) ≡ none)))
  put_lem {m} {ss} w k v = elim (Bool-cases (is_crowded m)) [
    | inr calm ↦
        let (e, m', runs, o, cause) = place_lem (calm-IsReady w calm) k v in
        (
          e,
          m',
          put_runs m ss k v e m' w.storage (put_direct m ss k v (used_small w) calm ∙ runs),
          o,
          Cause-left cause,
        )
    | inl crowded ↦ elim (Option-cases (a.calloc (m.capacity * 2))) [
      | inl out ↦ (
        nomem,
        m,
        put_runs m ss k v nomem m w.storage
            (put_starved m ss k v (used_small w) crowded (capacity_small w) out),
        refused ss refl w (λ q. refl),
        inr (inr out),
      )
      | inr (zeroes, given) ↦
          let (ss', moves, r, same) = rehash_lem w given in
          let (e, m', runs, o, cause) = place_lem r k v in
          (
            e,
            m',
            put_runs m ss k v e m' w.storage (
                put_grown m ss ss'
                  (record m { slots = some ss'; capacity = m.capacity * 2; used = m.len }) k v
                  (used_small w) crowded (capacity_small w) moves refl
                ∙ runs),
            Outcome-same same o,
            Cause-left cause,
          )
    ]
  ]
