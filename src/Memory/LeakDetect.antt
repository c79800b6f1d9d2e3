-- ===== src/Memory/LeakDetect.antt =====
-- src/memory/leak_detect.c: the list of live allocations. Pointers are addresses, 0 is NULL; what
-- malloc, calloc and realloc answer is an argument, and so is whether there is memory for a record
-- of it. Texts printed to stderr are left out.
pub mod Track
pub mod Move
mod Tests
use c_comprehensive_template.Prelude.{
  ℕ, zero, suc, ◌+◌, ◌-◌, ◌*◌, ◌/◌, ◌%◌, Bool, true, false, not, ◌&&◌, Option, none, some, List, [],
  ◌∷◌, length, ltb, ◌==◌, if◌then◌else◌, size_max, size_mod,
}
use c_comprehensive_template.Bytes.{add_size}

abbrev pub Ptr : Type 0
Ptr = ℕ

-- `next` is the tail of the list.
pub record AllocRecord : Type 0 where
  pub ptr : Ptr
  pub size : ℕ
  pub file : Ptr
  pub line : ℕ

-- g_head, g_total_allocs and g_total_frees.
pub record Detector : Type 0 where
  pub head : List AllocRecord
  pub total_allocs : ℕ
  pub total_frees : ℕ

abbrev pub init : Detector
init = record { head = []; total_allocs = 0; total_frees = 0 }

unfoldable pub record_add : Detector → Bool → AllocRecord → Detector
record_add d room r =
    if not room then d else record d { head = r ∷ d.head; total_allocs = add_size d.total_allocs 1 }

-- The list without the first record of p; `none` if there is none.
unfoldable pub unlink : List AllocRecord → Ptr → Option (List AllocRecord)
unlink [] p = none
unlink (r ∷ rs) p =
    let rest = unlink rs p in
    if r.ptr == p then some rs else elim rest [ none ↦ none | some rs' ↦ some (r ∷ rs') ]

unfoldable pub record_remove : Detector → Ptr → Detector
record_remove d p = elim (unlink d.head p) [
  | none ↦ d
  | some rs ↦ record d { head = rs; total_frees = add_size d.total_frees 1 }
]

-- The list with its first record of p replaced by r; `none` if there is none.
unfoldable pub update : List AllocRecord → Ptr → AllocRecord → Option (List AllocRecord)
update [] p new = none
update (r ∷ rs) p new =
    let rest = update rs p new in
    if r.ptr == p then some (new ∷ rs) else elim rest [ none ↦ none | some rs' ↦ some (r ∷ rs') ]

module _ (room : Bool) (answer : Ptr) (file : Ptr) (line : ℕ) where
  abbrev pub made : ℕ → AllocRecord
  made size = record { ptr = answer; size = size; file = file; line = line }

  unfoldable pub malloc : Detector → ℕ → Ptr × Detector
  malloc d size = if answer == 0 then (0, d) else (answer, record_add d room (made size))

  unfoldable pub calloc : Detector → ℕ → ℕ → Ptr × Detector
  calloc d count size =
      if not (size == 0) && ltb (size_max / size) count
      then (0, d)
      else if answer == 0
      then (0, d)
      else (answer, record_add d room (made (count * size % size_mod)))

  -- A NULL pointer is not looked for.
  unfoldable pub realloc : Detector → Ptr → ℕ → Ptr × Detector
  realloc d p size =
      if answer == 0 then (0, d) else elim (if p == 0 then none else update d.head p (made size)) [
        | none ↦ (answer, record_add d room (made size))
        | some rs ↦ (answer, record d { head = rs })
      ]

unfoldable pub free : Detector → Ptr → Detector
free d p = if p == 0 then d else record_remove d p

-- The number of leaks, which is returned, and the bytes, which are printed.
unfoldable pub report_from : List AllocRecord → ℕ → ℕ → ℕ × ℕ
report_from [] leaks bytes = (leaks, bytes)
report_from (r ∷ rs) leaks bytes = report_from rs (add_size leaks 1) (add_size bytes r.size)

pub report : Detector → ℕ
report d = (report_from d.head 0 0).0

pub shutdown : Detector → Detector
shutdown d = record d { head = [] }
