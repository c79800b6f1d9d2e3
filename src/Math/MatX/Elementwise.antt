-- ===== src/Math/MatX/Elementwise.antt =====
-- matx_add, matx_sub and matx_hadamard, also when the result shares a buffer with an operand.
use c_comprehensive_template.Prelude.{
  ℕ, ◌+◌, ◌*◌, ◌≤◌, ◌<◌, ◌≡◌, ◌≢◌, inr, refl, ap, ap₂, sym, subst, ◌∙◌, true, length, get_or,
  dec_lt, ℕ_discrete, arith,
}
use c_comprehensive_template.Math.MatX.{
  FloatOps, Ptr, Memory, MatX, read, write, check_elementwise, elementwise, matx_add, matx_sub,
  matx_hadamard,
}
use c_comprehensive_template.Math.MatX.Loops.{
  range_rule, read-write_self, read-write_ne, length-write, write_other,
}

module _ {F : Type 0} (ops : FloatOps F) where
  -- After i rounds: the first i results are there, and nothing else has changed.
  abbrev Written : (F → F → F) → MatX → MatX → MatX → Memory F → ℕ → Memory F → Type 0
  Written f a b out mem i s =
      (length (s out.buf) ≡ length (mem out.buf))
      × ((q : Ptr) → q ≢ out.buf → s q ≡ mem q)
      × ((k : ℕ) → k < i → read ops s out.buf k ≡ f (read ops mem a.buf k) (read ops mem b.buf k))
      × ((k : ℕ) → i ≤ k → read ops s out.buf k ≡ read ops mem out.buf k)

  -- What is read before its turn is what was there.
  unread :
      (f : F → F → F) (a b out : MatX) (mem s : Memory F) (i : ℕ) (q : Ptr)
      → Written f a b out mem i s
      → read ops s q i ≡ read ops mem q i
  unread f a b out mem s i q (_, others, _, ahead) = elim (ℕ_discrete q out.buf) [
    | yes e ↦ subst (λ p. read ops s p i ≡ read ops mem p i) (sym e) (ahead i (omega arith))
    | no h ↦ ap (λ block. get_or block i ops.zero_f) (others q h)
  ]

  write-Written :
      (f : F → F → F) (a b out : MatX) (mem s : Memory F) (i : ℕ)
      → i < length (mem out.buf)
      → Written f a b out mem i s
      → Written f a b out mem
          (i + 1)
          (write ops s out.buf i (f (read ops s a.buf i) (read ops s b.buf i)))
  write-Written f a b out mem s i inside w =
      let (size, others, written, ahead) = w in
      let v = f (read ops s a.buf i) (read ops s b.buf i) in
      let value : v ≡ f (read ops mem a.buf i) (read ops mem b.buf i) =
        ap₂ f (unread f a b out mem s i a.buf w) (unread f a b out mem s i b.buf w) in
      (
        length-write ops s out.buf out.buf i v ∙ size,
        λ q h. write_other ops s out.buf q i v h ∙ others q h,
        λ k h. elim (dec_lt k i) [
          | yes low ↦
              read-write_ne ops s out.buf out.buf i k v (inr (λ z. absurd (omega (arith, low, z))))
              ∙ written k low
          | no high ↦
              let e : i ≡ k = omega (arith, h, high) in
              subst
                (λ n.
                  read ops (write ops s out.buf i v) out.buf n
                  ≡ f (read ops mem a.buf n) (read ops mem b.buf n))
                e (read-write_self ops s out.buf i v (omega (arith, size, inside)) ∙ value)
        ],
        λ k h.
            read-write_ne ops s out.buf out.buf i k v (inr (λ z. absurd (omega (arith, h, z))))
            ∙ ahead k (omega (arith, h)),
      )

  elementwise-Written :
      (f : F → F → F) (a b out : MatX) (mem : Memory F)
      → length (mem out.buf) ≡ a.rows * a.cols
      → Written f a b out mem (a.rows * a.cols) (elementwise ops f a b out mem)
  unfolding elementwise
  elementwise-Written f a b out mem size =
      let n = a.rows * a.cols in
      let e : 0 + n ≡ n = omega arith in
      subst (λ i. Written f a b out mem i (elementwise ops f a b out mem)) e
        (range_rule (Written f a b out mem)
          (λ i s. write ops s out.buf i (f (read ops s a.buf i) (read ops s b.buf i))) n 0
          (λ i s low high w. write-Written f a b out mem s i (omega (arith, size, high)) w) mem
          (refl, (λ q h. refl), (λ k h. absurd (omega arith)), (λ k h. refl)))

  -- On matrices that pass the check, with a result of the right size, which may be an operand: every
  -- element is the sum, difference and product of the operands' elements as they were before, and
  -- other buffers are unchanged.
  pub elementwise_lem :
      (a b out : MatX) (mem : Memory F) (k : ℕ) (q : Ptr)
      → check_elementwise ops a b out ≡ true
      → length (mem out.buf) ≡ a.rows * a.cols
      → k < a.rows * a.cols
      → q ≢ out.buf
      → (read ops (matx_add ops a b out mem).1 out.buf k
          ≡ ops.add (read ops mem a.buf k) (read ops mem b.buf k))
        × (read ops (matx_sub ops a b out mem).1 out.buf k
            ≡ ops.sub (read ops mem a.buf k) (read ops mem b.buf k))
        × (read ops (matx_hadamard ops a b out mem).1 out.buf k
            ≡ ops.mul (read ops mem a.buf k) (read ops mem b.buf k))
        × ((matx_add ops a b out mem).1 q ≡ mem q)
        × ((matx_sub ops a b out mem).1 q ≡ mem q)
        × ((matx_hadamard ops a b out mem).1 q ≡ mem q)
  unfolding matx_add matx_sub matx_hadamard
  elementwise_lem a b out mem k q good size inside other =
      let (_, adds_q, adds, _) = elementwise-Written ops.add a b out mem size in
      let (_, subs_q, subs, _) = elementwise-Written ops.sub a b out mem size in
      let (_, muls_q, muls, _) = elementwise-Written ops.mul a b out mem size in
      rw good (
        adds k inside,
        subs k inside,
        muls k inside,
        adds_q q other,
        subs_q q other,
        muls_q q other,
      )
