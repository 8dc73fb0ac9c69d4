-- ===== src/Arith/Drain.antt =====
-- The four loops of src/shunt.c that pop operators are one loop: it stops at an operator, and leaves
-- there in one of two ways.
use layla_shell.Arith.Op.{Op, prec}
use layla_shell.Arith.Machine.{
  Calc, Evaluator, is_lbrace, ◌>>=◌, apply_op, close_loop, pop_loop, flush_loop,
}
use layla_shell.Prelude.{
  ℕ, ◌≡◌, refl, Bool, true, false, not, Option, none, some, List, [], ◌∷◌, leb, if◌then◌else◌,
  Bool-cases, inl, inr, fun_ext,
}

module _ {V St : Type 0} (ev : Evaluator V St) where
  module _ (stop : Op → Bool) (exit : Calc V St → Option (Calc V St)) where
    unfoldable pub drain : List Op → Calc V St → Option (Calc V St)
    drain [] c = some c
    drain (top ∷ ops) c =
        let next = apply_op ev top (record c { opstack = ops }) >>= drain ops in
        if stop top then exit c else next

    pub drain_stop :
        (top : Op) (ops : List Op) (c : Calc V St) → stop top ≡ true → drain (top ∷ ops) c ≡ exit c
    unfolding drain
    drain_stop top ops c e = rw e

    pub drain_go :
        (top : Op) (ops : List Op) (c : Calc V St)
        → stop top ≡ false
        → drain (top ∷ ops) c ≡ (apply_op ev top (record c { opstack = ops }) >>= drain ops)
    unfolding drain
    drain_go top ops c e = rw e

  pub pop_loop-drain :
      (least : ℕ) (ops : List Op)
      → pop_loop ev least ops ≡ drain (λ o. not (leb least (prec o))) some ops
  unfolding pop_loop drain
  pop_loop-drain least [] = refl
  pop_loop-drain least (top ∷ ops) = fun_ext λ c.
      rw (pop_loop-drain least ops)
        (elim (Bool-cases (leb least (prec top))) [ inl e ↦ rw e | inr e ↦ rw e ])

  pub close_loop-drain : (ops : List Op) → close_loop ev ops ≡ drain is_lbrace some ops
  unfolding close_loop drain
  close_loop-drain [] = refl
  close_loop-drain (top ∷ ops) = fun_ext λ c. rw (close_loop-drain ops)

  pub flush_loop-drain : (ops : List Op) → flush_loop ev ops ≡ drain is_lbrace (λ _. none) ops
  unfolding flush_loop drain
  flush_loop-drain [] = refl
  flush_loop-drain (top ∷ ops) = fun_ext λ c. rw (flush_loop-drain ops)
