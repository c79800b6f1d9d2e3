-- ===== src/Hpc/ThreadPool/Nodes.antt =====
-- The linked list of task nodes of src/hpc/thread_pool.c as the list of its addresses.
use c_comprehensive_template.Prelude.{
  ℕ, ◌+◌, ◌≤◌, ◌≡◌, ◌≢◌, refl, ap, ◌∙◌, Option, none, some, List, [], ◌∷◌, ◌++◌, map, arith, ◌==◌,
  if◌then◌else◌, ℕ_discrete, ap₂,
}
use c_comprehensive_template.Hpc.ThreadPool.{Task, Heap, store}

abbrev pub Job : Type 0
Job = ℕ × ℕ

-- What the task at an address calls.
abbrev pub job_of : Option Task → Job
job_of none = (0, 0)
job_of (some t) = (t.func, t.arg)

abbrev pub job_at : Heap → ℕ → Job
job_at heap a = job_of (heap a)

abbrev pub jobs : Heap → List ℕ → List Job
jobs heap q = map (job_at heap) q

-- How often an address stands in a list.
abbrev pub count : ℕ → List ℕ → ℕ
count a [] = 0
count a (x ∷ xs) = (if x == a then 1 else 0) + count a xs

pub count-append : (a : ℕ) (xs ys : List ℕ) → count a (xs ++ ys) ≡ count a xs + count a ys
count-append a [] ys = omega arith
count-append a (x ∷ xs) ys = ground (arith, count-append a xs ys)

pub count_here : (a : ℕ) (xs : List ℕ) → count a (a ∷ xs) ≡ 1 + count a xs
count_here a xs = ground arith

pub count_other : (a x : ℕ) (xs : List ℕ) → x ≢ a → count a (x ∷ xs) ≡ count a xs
count_other a x xs n = ground arith

-- The list from p on.
abbrev pub Linked : Heap → ℕ → List ℕ → Type 0
Linked heap p [] = p ≡ 0
Linked heap p (a ∷ q) = (p ≡ a) × (a ≢ 0) × ((t : Task) × (heap a ≡ some t) × Linked heap t.next q)

abbrev pub last_of : List ℕ → ℕ
last_of [] = 0
last_of (a ∷ []) = a
last_of (a ∷ b ∷ q) = last_of (b ∷ q)

pub store_self : (heap : Heap) (a : ℕ) (v : Option Task) → store heap a v a ≡ v
unfolding store
store_self heap a v = ground arith

pub store_other :
    (heap : Heap) (a : ℕ) (v : Option Task) (b : ℕ) → b ≢ a → store heap a v b ≡ heap b
unfolding store
store_other heap a v b n = ground arith

-- What is done to a node that is not in the list leaves the list as it is.
pub Linked-store :
    (heap : Heap) (a : ℕ) (v : Option Task) (p : ℕ) (q : List ℕ)
    → count a q ≡ 0
    → Linked heap p q
    → Linked (store heap a v) p q
Linked-store heap a v p [] c l = l
Linked-store heap a v p (b ∷ q) c (e, n, (t, h, l)) =
    let other : b ≢ a = ground arith in
    (e, n, (t, store_other heap a v b other ∙ h, Linked-store heap a v t.next q (ground arith) l))

pub jobs-store :
    (heap : Heap) (a : ℕ) (v : Option Task) (q : List ℕ)
    → count a q ≡ 0
    → jobs (store heap a v) q ≡ jobs heap q
jobs-store heap a v [] c = refl
jobs-store heap a v (b ∷ q) c =
    let other : b ≢ a = ground arith in
    ap₂ (λ x l. x ∷ l) (ap (λ o. job_of o) (store_other heap a v b other))
      (jobs-store heap a v q (ground arith))

kept :
    (heap : Heap) (a : ℕ) (t : Task) (n b : ℕ)
    → heap a ≡ some t
    → job_at (store heap a (some (record t { next = n }))) b ≡ job_at heap b
kept heap a t n b h = elim (ℕ_discrete b a) [
  | yes e ↦ rw (e, store_self heap a (some (record t { next = n })), h) refl
  | no ne ↦ ap job_of (store_other heap a (some (record t { next = n })) b ne)
]

-- A node that keeps its job.
pub jobs-relink :
    (heap : Heap) (a : ℕ) (t : Task) (n : ℕ) (q : List ℕ)
    → heap a ≡ some t
    → jobs (store heap a (some (record t { next = n }))) q ≡ jobs heap q
jobs-relink heap a t n [] h = refl
jobs-relink heap a t n (b ∷ q) h =
    ap₂ (λ x l. x ∷ l) (kept heap a t n b h) (jobs-relink heap a t n q h)

pub last_in : (a : ℕ) (q : List ℕ) → count (last_of (a ∷ q)) (a ∷ q) ≢ 0
last_in a [] = ground arith
last_in a (b ∷ q) = let rest = last_in b q in ground arith

pub absent : (t : ℕ) (q : List ℕ) (a : ℕ) → count t q ≡ 0 → count a q ≢ 0 → a ≢ t
absent t q a c n e = let here : count a q ≡ 0 = ap (λ x. count x q) e ∙ c in n here

pub last_of-append : (t a : ℕ) (q : List ℕ) → last_of (a ∷ q ++ t ∷ []) ≡ t
last_of-append t a [] = refl
last_of-append t a (b ∷ q) = last_of-append t b q

-- A last node may be read.
pub last_node :
    (heap : Heap) (p a : ℕ) (q : List ℕ)
    → Linked heap p (a ∷ q)
    → (last_of (a ∷ q) ≢ 0) × ((t : Task) × (heap (last_of (a ∷ q)) ≡ some t))
last_node heap p a [] (e, n, (t, h, l)) = (n, (t, h))
last_node heap p a (b ∷ q) (e, n, (t, h, l)) = last_node heap t.next b q l

-- A new node behind the last one.
pub Linked-append :
    (heap : Heap) (p a : ℕ) (q : List ℕ) (last : Task) (t : ℕ) (new : Task)
    → Linked heap p (a ∷ q)
    → heap (last_of (a ∷ q)) ≡ some last
    → count (last_of (a ∷ q)) (a ∷ q) ≤ 1
    → count t (a ∷ q) ≡ 0
    → t ≢ 0
    → heap t ≡ some new
    → new.next ≡ 0
    → Linked (store heap (last_of (a ∷ q)) (some (record last { next = t }))) p (a ∷ q ++ t ∷ [])
Linked-append heap p a [] last t new (e, n, (u, h, l)) f once fresh nonzero g end =
    let other : t ≢ a = ground arith in
    let relinked : Task = record last { next = t } in
    (
      e,
      n,
      (
        relinked,
        store_self heap a (some relinked),
        (refl, nonzero, (new, store_other heap a (some relinked) t other ∙ g, end)),
      ),
    )
Linked-append heap p a (b ∷ q) last t new (e, n, (u, h, l)) f once fresh nonzero g end =
    let there : count (last_of (b ∷ q)) (b ∷ q) ≢ 0 = last_in b q in
    let other : a ≢ last_of (b ∷ q) = ground arith in
    (
      e,
      n,
      (
        u,
        store_other heap (last_of (b ∷ q)) (some (record last { next = t })) a other ∙ h,
        Linked-append heap u.next b q last t new l f (ground arith) (ground arith) nonzero g end,
      ),
    )
