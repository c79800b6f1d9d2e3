-- ===== src/Hpc/ThreadPool/Turns.antt =====
-- What one turn of src/hpc/thread_pool.c does to the list of the tasks that wait; no turn follows
-- a pointer to a node that is not allocated.
use c_comprehensive_template.Prelude.{
  ℕ, ◌≤◌, ◌≡◌, ◌≢◌, refl, ap, sym, ◌∙◌, true, false, Option, none, some, List, [], ◌∷◌, ◌++◌, arith,
  ◌==◌, if◌then◌else◌, ℕ_discrete, ◌⊎◌, inl, inr, Bool-cases,
}
use c_comprehensive_template.Core.Error.{ErrorCode, ok, nomem, unsupported}
use c_comprehensive_template.Hpc.BlockingQueue.Step.{signal, sleep}
use c_comprehensive_template.Hpc.ThreadPool.{
  Task, Heap, ThreadPool, Turn, wait, leave, take_task, store, worker_turn, link, submit_turn,
  submit,
}
use c_comprehensive_template.Hpc.ThreadPool.Nodes.{
  job_of, job_at, jobs, count, Linked, last_of, store_self, store_other, Linked-store, jobs-store,
  jobs-relink, last_node, Linked-append, last_in, absent, last_of-append,
}

-- The list of the pool is q.
abbrev pub IsQueue : ThreadPool → Heap → List ℕ → Type 0
IsQueue p heap q = Linked heap p.queue_head q × (p.queue_tail ≡ last_of q)

-- What a turn of a worker leaves as it was.
abbrev pub Same : ThreadPool → ThreadPool → Type 0
Same p p' = (p'.cond ≡ p.cond) × (p'.shutdown ≡ p.shutdown) × (p'.num_threads ≡ p.num_threads)

pub data Worked (p : ThreadPool) (heap : Heap) (q : List ℕ) (out : Option (Turn × ThreadPool))
    : Type 0 where
  sleeps :
      out ≡ some (wait, record p { cond = sleep p.cond })
      → q ≡ []
      → p.shutdown ≡ false
      → Worked p heap q out
  leaves : out ≡ some (leave, p) → q ≡ [] → p.shutdown ≡ true → Worked p heap q out
  takes :
      (a : ℕ) (q' : List ℕ) (p' : ThreadPool)
      → out ≡ some (take_task a, p')
      → q ≡ a ∷ q'
      → IsQueue p' heap q'
      → Same p p'
      → Worked p heap q out

-- The tail pointer after the first node was taken.
tail_after :
    (heap : Heap) (next tail : ℕ) (a : ℕ) (q : List ℕ)
    → Linked heap next q
    → tail ≡ last_of (a ∷ q)
    → (if next == 0 then 0 else tail) ≡ last_of q
tail_after heap next tail a [] l e = ground arith
tail_after heap next tail a (b ∷ q) (h, n, l) e = ground arith

takes_first :
    (p : ThreadPool) (heap : Heap) (t : Task)
    → (p.queue_head == 0) ≡ false
    → heap p.queue_head ≡ some t
    → worker_turn p heap
      ≡ some (
        take_task p.queue_head,
        record p { queue_head = t.next; queue_tail = if t.next == 0 then 0 else p.queue_tail },
      )
unfolding worker_turn
takes_first p heap t there found = elim (Bool-cases p.shutdown) [
  | inl d ↦ simp (worker_turn, there, d, found)
  | inr d ↦ simp (worker_turn, there, d, found)
]

-- A worker sleeps, leaves or takes the first task, and never faults.
pub worker_turn_lem :
    (p : ThreadPool) (heap : Heap) (q : List ℕ)
    → IsQueue p heap q
    → Worked p heap q (worker_turn p heap)
unfolding worker_turn
worker_turn_lem p heap [] (l, e) = elim (Bool-cases p.shutdown) [
  | inl t ↦ leaves (ground (arith, t)) refl t
  | inr f ↦ sleeps (ground (arith, f)) refl f
]
worker_turn_lem p heap (a ∷ q) ((h, n, (t, m, l)), e) =
    let there : (p.queue_head == 0) ≡ false = ground arith in
    let found : heap p.queue_head ≡ some t = ap heap h ∙ m in
    takes a q
      (record p { queue_head = t.next; queue_tail = if t.next == 0 then 0 else p.queue_tail })
      (takes_first p heap t there found
        ∙ ap
            (λ x. some (
              take_task x,
              record p {
                queue_head = t.next;
                queue_tail = if t.next == 0 then 0 else p.queue_tail;
              },
            ))
            h)
      refl (l, tail_after heap t.next p.queue_tail a q l e) (refl, refl, refl)

-- Who holds the node at an address: nobody, and it is free, or one list, and it is allocated.
abbrev pub Owned : Heap → ℕ → ℕ → Type 0
Owned heap a n = ((n ≡ 0) × (heap a ≡ none)) ⊎ ((n ≡ 1) × ((t : Task) × (heap a ≡ some t)))

pub Owned-same : (heap heap' : Heap) (b n : ℕ) → heap' b ≡ heap b → Owned heap b n → Owned heap' b n
Owned-same heap heap' b n e (inl (z, h)) = inl (z, e ∙ h)
Owned-same heap heap' b n e (inr (z, (t, h))) = inr (z, (t, e ∙ h))

Owned-kept :
    (heap heap' : Heap) (b n : ℕ) (t u : Task)
    → heap b ≡ some t
    → heap' b ≡ some u
    → Owned heap b n
    → Owned heap' b n
Owned-kept heap heap' b n t u g h (inl (z, e)) = absurd (ground (arith, g, e))
Owned-kept heap heap' b n t u g h (inr (z, w)) = inr (z, (u, h))

relinked-Owned :
    (heap : Heap) (a : ℕ) (t u : Task) (b n : ℕ)
    → heap a ≡ some t
    → Owned heap b n
    → Owned (store heap a (some u)) b n
relinked-Owned heap a t u b n h o = elim (ℕ_discrete b a) [
  | yes e ↦
      Owned-kept heap (store heap a (some u)) b n t u (ap heap e ∙ h)
        (ap (store heap a (some u)) e ∙ store_self heap a (some u)) o
  | no ne ↦ Owned-same heap (store heap a (some u)) b n (store_other heap a (some u) b ne) o
]

pub data Submitted (p : ThreadPool) (heap : Heap) (q : List ℕ) (t func arg : ℕ)
    (out : Option (ErrorCode × Heap × Option ThreadPool)) : Type 0 where
  no_memory : out ≡ some (nomem, heap, some p) → t ≡ 0 → Submitted p heap q t func arg out
  too_late :
      (heap' : Heap)
      → out ≡ some (unsupported, heap', some p)
      → p.shutdown ≡ true
      → ((b : ℕ) → heap' b ≡ heap b)
      → Submitted p heap q t func arg out
  queued :
      (heap' : Heap) (p' : ThreadPool)
      → out ≡ some (ok, heap', some p')
      → p.shutdown ≡ false
      → t ≢ 0
      → IsQueue p' heap' (q ++ t ∷ [])
      → p'.cond ≡ signal p.cond
      → (p'.shutdown ≡ p.shutdown) × (p'.num_threads ≡ p.num_threads)
      → ((l : List ℕ) → count t l ≡ 0 → jobs heap' l ≡ jobs heap l)
      → job_at heap' t ≡ (func, arg)
      → ((b n : ℕ) → b ≢ t → Owned heap b n → Owned heap' b n)
      → ((task : Task) × (heap' t ≡ some task))
      → Submitted p heap q t func arg out

module _ (p : ThreadPool) (heap : Heap) (t func arg : ℕ) (nonzero : t ≢ 0) where
  abbrev new : Task
  new = record { func = func; arg = arg; next = 0 }

  abbrev with_new : Heap
  with_new = store heap t (some new)

  freed : heap t ≡ none → (b : ℕ) → store with_new t none b ≡ heap b
  freed free b = elim (ℕ_discrete b t) [
    | yes e ↦ rw (e, store_self with_new t none) (sym free)
    | no ne ↦ store_other with_new t none b ne ∙ store_other heap t (some new) b ne
  ]

  into_empty :
      p.shutdown ≡ false
      → IsQueue p heap []
      → Submitted p heap [] t func arg (submit t heap (some p) (some func) arg)
  unfolding submit submit_turn link
  into_empty up (l, e) =
      let no_tail : (p.queue_tail == 0) ≡ true = ground arith in
      let some_node : (t == 0) ≡ false = ground arith in
      queued with_new (record p { queue_head = t; queue_tail = t; cond = signal p.cond })
        (simp (submit, submit_turn, link, some_node, up, no_tail)) up nonzero
        ((refl, nonzero, (new, store_self heap t (some new), refl)), refl) refl (refl, refl)
        (λ l c. jobs-store heap t (some new) l c) (ap job_of (store_self heap t (some new)))
        (λ b n ne o. Owned-same heap with_new b n (store_other heap t (some new) b ne) o)
        (new, store_self heap t (some new))

  behind_last :
      (a : ℕ) (q : List ℕ)
      → p.shutdown ≡ false
      → IsQueue p heap (a ∷ q)
      → count (last_of (a ∷ q)) (a ∷ q) ≤ 1
      → count t (a ∷ q) ≡ 0
      → Submitted p heap (a ∷ q) t func arg (submit t heap (some p) (some func) arg)
  unfolding submit submit_turn link
  behind_last a q up (l, e) once fresh =
      let (there, (last, found)) = last_node heap p.queue_head a q l in
      let other : last_of (a ∷ q) ≢ t = absent t (a ∷ q) (last_of (a ∷ q)) fresh (last_in a q) in
      let tail_there : (last_of (a ∷ q) == 0) ≡ false = ground arith in
      let some_node : (t == 0) ≡ false = ground arith in
      let old : with_new (last_of (a ∷ q)) ≡ some last =
        store_other heap t (some new) (last_of (a ∷ q)) other ∙ found in
      let relinked : Option Task = some (record last { next = t }) in
      let heap' : Heap = store with_new (last_of (a ∷ q)) relinked in
      let known : heap' t ≡ some new =
        store_other with_new (last_of (a ∷ q)) relinked t (λ x. other (sym x))
        ∙ store_self heap t (some new) in
      queued heap' (record p { queue_tail = t; cond = signal p.cond })
        (simp (submit, submit_turn, link, some_node, up, tail_there, e, old)) up nonzero
        (
          Linked-append with_new p.queue_head a q last t new
              (Linked-store heap t (some new) p.queue_head (a ∷ q) fresh l) old once fresh nonzero
              (store_self heap t (some new)) refl,
          sym (last_of-append t a q),
        )
        refl (refl, refl)
        (λ l c.
          jobs-relink with_new (last_of (a ∷ q)) last t l old ∙ jobs-store heap t (some new) l c)
        (ap job_of known)
        (λ b n ne o.
          relinked-Owned with_new (last_of (a ∷ q)) last (record last { next = t }) b n old
            (Owned-same heap with_new b n (store_other heap t (some new) b ne) o))
        (new, known)

  into_queue :
      (q : List ℕ)
      → p.shutdown ≡ false
      → IsQueue p heap q
      → count (last_of q) q ≤ 1
      → count t q ≡ 0
      → Submitted p heap q t func arg (submit t heap (some p) (some func) arg)
  into_queue [] up l once fresh = into_empty up l
  into_queue (a ∷ q) up l once fresh = behind_last a q up l once fresh

-- A submission adds its task at the end, with a signal, or fails for lack of memory, or finds the
-- pool shutting down and frees its node again; it never faults.
pub submit_lem :
    (p : ThreadPool) (heap : Heap) (q : List ℕ) (t func arg : ℕ)
    → IsQueue p heap q
    → (t ≢ 0 → heap t ≡ none)
    → (t ≢ 0 → count t q ≡ 0)
    → count (last_of q) q ≤ 1
    → Submitted p heap q t func arg (submit t heap (some p) (some func) arg)
unfolding submit submit_turn
submit_lem p heap q t func arg l free fresh once = elim (ℕ_discrete t 0) [
  | yes e ↦ no_memory (ground (arith, e)) e
  | no ne ↦
      let some_node : (t == 0) ≡ false = ground arith in
      elim (Bool-cases p.shutdown) [
        | inl down ↦
            too_late (store (with_new p heap t func arg ne) t none)
              (simp (submit, submit_turn, some_node, down)) down
              (freed p heap t func arg ne (free ne))
        | inr up ↦ into_queue p heap t func arg ne q up l once (fresh ne)
      ]
]
