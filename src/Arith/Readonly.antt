-- ===== src/Arith/Readonly.antt =====
-- No operator of src/shunt.c changes a read-only variable.
use layla_shell.Arith.Op.{Op}
use layla_shell.Arith.Machine.{long_int, var_ptr}
use layla_shell.Arith.Text.{print_long}
use layla_shell.Arith.Word.{add_long}
use layla_shell.Arith.Eval.{
  State, Operand, Result, raise, long_value, eval_unary, eval_binary, eval_logical, eval_divide,
  assign_var, eval_assign_val, eval_assign, eval_assign_ext, inc_dec_var, change, do_eval_inc_dec,
  eval,
}
use layla_shell.Symtab.Entry.{Vars, Hooks, readonly, special_var}
use layla_shell.Arith.Plain.{
  IsPlain, same_vars-IsPlain, SameVars, long-SameVars, unary-SameVars, binary-SameVars,
  logical-SameVars, divide-SameVars,
}
use layla_shell.Arith.Assign.{assign_var-assigned, assigned-frame}
use layla_shell.Symtab.Keeps.{Keeps, setval-frame, writable-differs, writable-apart}
use layla_shell.Prelude.{
  ℕ, ◌-◌, ◌^◌, refl, Bool, true, false, if◌then◌else◌, ap, subst, ◌≡◌, Bool-cases, inl, inr,
}

module _ (hooks : Hooks) where
  -- what a function of the table does to the read-only entries
  abbrev KeepsIn : State → Result → Type 0
  KeepsIn s r = Keeps s.vars r.1.vars

  same-Keeps : (s : State) (r : Result) → SameVars hooks s r → KeepsIn s r
  same-Keeps s r e x h = ap (λ (v : Vars). v x) e

  unary-Keeps :
      (f : ℕ → ℕ) (a : Operand) (s : State) → IsPlain s.vars a → KeepsIn s (eval_unary hooks f a s)
  unary-Keeps f a s pa = same-Keeps s (eval_unary hooks f a s) (unary-SameVars hooks f a s pa)

  binary-Keeps :
      (f : ℕ → ℕ → ℕ) (a b : Operand) (s : State)
      → IsPlain s.vars a
      → IsPlain s.vars b
      → KeepsIn s (eval_binary hooks f a b s)
  binary-Keeps f a b s pa pb =
      same-Keeps s (eval_binary hooks f a b s) (binary-SameVars hooks f a b s pa pb)

  divide-Keeps :
      (f : ℕ → ℕ → ℕ) (a b : Operand) (s : State)
      → IsPlain s.vars a
      → IsPlain s.vars b
      → KeepsIn s (eval_divide hooks f a b s)
  divide-Keeps f a b s pa pb =
      same-Keeps s (eval_divide hooks f a b s) (divide-SameVars hooks f a b s pa pb)

  logical-Keeps :
      (conj : Bool) (f : ℕ → ℕ → ℕ) (a b : Operand) (s : State)
      → IsPlain s.vars a
      → IsPlain s.vars b
      → KeepsIn s (eval_logical hooks conj f a b s)
  logical-Keeps conj f a b s pa pb =
      same-Keeps s (eval_logical hooks conj f a b s) (logical-SameVars hooks conj f a b s pa pb)

  -- an update of a state whose entries are those of `s`
  then-Keeps : (s t : State) (r : Result) → t.vars ≡ s.vars → KeepsIn t r → KeepsIn s r
  then-Keeps s t r e h = subst (λ (v : Vars). Keeps v r.1.vars) e h

  assign_var-Keeps :
      (a n : ℕ) (s : State)
      → (s.vars a).flags special_var ≡ false
      → KeepsIn s (assign_var hooks a n s)
  assign_var-Keeps a n s plain x h = elim (Bool-cases ((s.vars a).flags readonly)) [
    | inl e ↦ unfold assign_var raise in rw e refl
    | inr w ↦
        rw (assign_var-assigned hooks a n s w plain)
          (assigned-frame hooks a x n s (writable-apart a x s.vars w h))
  ]

  assign_val-Keeps :
      (a : Operand) (n : ℕ) (s : State) → IsPlain s.vars a → KeepsIn s (eval_assign_val hooks a n s)
  unfolding eval_assign_val raise IsPlain
  assign_val-Keeps (long_int m) n s pa = same-Keeps s (raise s) refl
  assign_val-Keeps (var_ptr a) n s pa = assign_var-Keeps a n s pa.0

  assign_to-Keeps :
      (a : Operand) (s : State) (r : Result)
      → IsPlain s.vars a
      → SameVars hooks s r
      → KeepsIn s (eval_assign_val hooks a r.0 r.1)
  assign_to-Keeps a s r pa e =
      then-Keeps s r.1 (eval_assign_val hooks a r.0 r.1) e
        (assign_val-Keeps a r.0 r.1 (same_vars-IsPlain s.vars r.1.vars a e pa))

  assign-Keeps :
      (a b : Operand) (s : State)
      → IsPlain s.vars a
      → IsPlain s.vars b
      → KeepsIn s (eval_assign hooks a b s)
  unfolding eval_assign
  assign-Keeps a b s pa pb =
      assign_to-Keeps a s (long_value hooks b s) pa (long-SameVars hooks b s pb)

  assign_ext-Keeps :
      (f : Operand → Operand → State → Result) (a b : Operand) (s : State)
      → IsPlain s.vars a
      → SameVars hooks s (f a b s)
      → KeepsIn s (eval_assign_ext hooks f a b s)
  unfolding eval_assign_ext
  assign_ext-Keeps f a b s pa e = assign_to-Keeps a s (f a b s) pa e

  change-Keeps :
      (x : Operand) (pre : Bool) (diff n : ℕ) (s : State)
      → IsPlain s.vars x
      → KeepsIn s (change hooks x pre diff n s)
  unfolding change inc_dec_var raise IsPlain
  change-Keeps (long_int m) pre diff n s p x h = refl
  change-Keeps (var_ptr a) pre diff n s p x h = elim (Bool-cases ((s.vars a).flags readonly)) [
    | inl e ↦ rw e refl
    | inr w ↦ rw w (
        setval-frame hooks a x (print_long (add_long n diff)) s.vars p.0 p.1
          (writable-differs a x s.vars w h))
  ]

  inc_dec-Keeps :
      (pre add : Bool) (a : Operand) (s : State)
      → IsPlain s.vars a
      → KeepsIn s (do_eval_inc_dec hooks pre add a s)
  unfolding do_eval_inc_dec
  inc_dec-Keeps pre add a s pa =
      let r = long_value hooks a s in
      let diff = if add then 1 else 2 ^ 64 - 1 in
      let e = long-SameVars hooks a s pa in
      then-Keeps s r.1 (change hooks a pre diff r.0 r.1) e
        (change-Keeps a pre diff r.0 r.1 (same_vars-IsPlain s.vars r.1.vars a e pa))

  operator-Keeps :
      (o : Op) (a b : Operand) (s : State)
      → IsPlain s.vars a
      → IsPlain s.vars b
      → KeepsIn s (eval hooks o a b s)
  unfolding eval raise
  operator-Keeps Op.post_inc a b s pa pb = inc_dec-Keeps false true a s pa
  operator-Keeps Op.post_dec a b s pa pb = inc_dec-Keeps false false a s pa
  operator-Keeps Op.pre_inc a b s pa pb = inc_dec-Keeps true true a s pa
  operator-Keeps Op.pre_dec a b s pa pb = inc_dec-Keeps true false a s pa
  operator-Keeps Op.uminus a b s pa pb = unary-Keeps _ a s pa
  operator-Keeps Op.uplus a b s pa pb = unary-Keeps _ a s pa
  operator-Keeps Op.log_not a b s pa pb = unary-Keeps _ a s pa
  operator-Keeps Op.bit_not a b s pa pb = unary-Keeps _ a s pa
  operator-Keeps Op.exp a b s pa pb = binary-Keeps _ a b s pa pb
  operator-Keeps Op.mult a b s pa pb = binary-Keeps _ a b s pa pb
  operator-Keeps Op.div a b s pa pb = divide-Keeps _ a b s pa pb
  operator-Keeps Op.mod_op a b s pa pb = divide-Keeps _ a b s pa pb
  operator-Keeps Op.add a b s pa pb = binary-Keeps _ a b s pa pb
  operator-Keeps Op.sub a b s pa pb = binary-Keeps _ a b s pa pb
  operator-Keeps Op.lsh a b s pa pb = binary-Keeps _ a b s pa pb
  operator-Keeps Op.rsh a b s pa pb = binary-Keeps _ a b s pa pb
  operator-Keeps Op.lt a b s pa pb = binary-Keeps _ a b s pa pb
  operator-Keeps Op.le a b s pa pb = binary-Keeps _ a b s pa pb
  operator-Keeps Op.gt a b s pa pb = binary-Keeps _ a b s pa pb
  operator-Keeps Op.ge a b s pa pb = binary-Keeps _ a b s pa pb
  operator-Keeps Op.eq a b s pa pb = binary-Keeps _ a b s pa pb
  operator-Keeps Op.ne a b s pa pb = binary-Keeps _ a b s pa pb
  operator-Keeps Op.bit_and a b s pa pb = binary-Keeps _ a b s pa pb
  operator-Keeps Op.bit_xor a b s pa pb = binary-Keeps _ a b s pa pb
  operator-Keeps Op.bit_or a b s pa pb = binary-Keeps _ a b s pa pb
  operator-Keeps Op.log_and a b s pa pb = logical-Keeps true _ a b s pa pb
  operator-Keeps Op.log_or a b s pa pb = logical-Keeps false _ a b s pa pb
  operator-Keeps Op.assign a b s pa pb = assign-Keeps a b s pa pb
  operator-Keeps Op.assign_add a b s pa pb =
      assign_ext-Keeps _ a b s pa (binary-SameVars hooks _ a b s pa pb)
  operator-Keeps Op.assign_sub a b s pa pb =
      assign_ext-Keeps _ a b s pa (binary-SameVars hooks _ a b s pa pb)
  operator-Keeps Op.assign_mult a b s pa pb =
      assign_ext-Keeps _ a b s pa (binary-SameVars hooks _ a b s pa pb)
  operator-Keeps Op.assign_div a b s pa pb =
      assign_ext-Keeps _ a b s pa (divide-SameVars hooks _ a b s pa pb)
  operator-Keeps Op.assign_mod a b s pa pb =
      assign_ext-Keeps _ a b s pa (divide-SameVars hooks _ a b s pa pb)
  operator-Keeps Op.assign_lsh a b s pa pb =
      assign_ext-Keeps _ a b s pa (binary-SameVars hooks _ a b s pa pb)
  operator-Keeps Op.assign_rsh a b s pa pb =
      assign_ext-Keeps _ a b s pa (binary-SameVars hooks _ a b s pa pb)
  operator-Keeps Op.assign_and a b s pa pb =
      assign_ext-Keeps _ a b s pa (binary-SameVars hooks _ a b s pa pb)
  operator-Keeps Op.assign_xor a b s pa pb =
      assign_ext-Keeps _ a b s pa (binary-SameVars hooks _ a b s pa pb)
  operator-Keeps Op.assign_or a b s pa pb =
      assign_ext-Keeps _ a b s pa (binary-SameVars hooks _ a b s pa pb)
  operator-Keeps _ a b s pa pb = same-Keeps s (raise s) refl

  -- Of operands that are numbers, or variables that are neither special nor integers and hold a number, no
  -- operator changes an entry that is read-only, whether or not it fails, as long as it overruns no buffer.
  pub eval-Keeps :
      (o : Op) (a b : Operand) (s : State)
      → IsPlain s.vars a
      → IsPlain s.vars b
      → (eval hooks o a b s).1.overrun ≡ false
      → Keeps s.vars (eval hooks o a b s).1.vars
  eval-Keeps o a b s pa pb fits = operator-Keeps o a b s pa pb
