-- ===== src/Containers/Queue.antt =====
-- What the ring buffers of the library promise: a FIFO of at most `capacity` elements, oldest
-- first. It is the contract of `ringbuf`, of the blocking queue and of the SPSC queue.
use c_comprehensive_template.Prelude.{
  ℕ, List, [], ◌∷◌, ◌++◌, length, Option, none, some, ◌==◌, if◌then◌else◌,
}
use c_comprehensive_template.Core.Error.{ErrorCode, ok, overflow, not_found}

module _ {ℓ} {A : Type ℓ} where
  -- Append, or refuse when full.
  unfoldable pub push : ℕ → List A → A → ErrorCode × List A
  push n q x = if length q == n then (overflow, q) else (ok, q ++ x ∷ [])

  abbrev pub behead : List A → List A
  behead [] = []
  behead (x ∷ q) = q

  -- Append, and drop the oldest when full.
  unfoldable pub push_overwrite : ℕ → List A → A → ErrorCode × List A
  push_overwrite n q x = (ok, (if length q == n then behead q else q) ++ x ∷ [])

  unfoldable pub pop : List A → ErrorCode × Option A × List A
  pop [] = (not_found, none, [])
  pop (x ∷ q) = (ok, some x, q)
