-- ===== src/Arith/Plain.antt =====
-- Operands of src/shunt.c whose values take no nested expansion: reading them changes no variable.
use layla_shell.Arith.Machine.{long_int, var_ptr}
use layla_shell.Arith.Text.{strtol}
use layla_shell.Arith.Eval.{
  State, Operand, Result, raise, text_value, val_value, item_value, long_value, eval_unary,
  eval_binary, eval_logical, eval_divide,
}
use layla_shell.Symtab.Entry.{Vars, Hooks, special_var, intval}
use layla_shell.Prelude.Bytes.{Bytes}
use layla_shell.Prelude.{
  ℕ, refl, Bool, true, false, Option, none, some, [], ◌∷◌, ◌==◌, if◌then◌else◌, ◌∙◌, sym, subst,
  arith, ◌≡◌,
}

-- an operand that is a number, or a variable that is neither special nor an integer and whose text is a
-- number: its value takes no nested expansion
IsNumeric : Option Bytes → Type 0
IsNumeric none = Unit
IsNumeric (some text) = (strtol text).1 ≡ []

unfoldable pub IsPlain : Vars → Operand → Type 0
unfolding IsNumeric
IsPlain vars (long_int n) = Unit
IsPlain vars (var_ptr a) =
    ((vars a).flags special_var ≡ false) × ((vars a).flags intval ≡ false) × IsNumeric (vars a).val

pub same_vars-IsPlain :
    (vars vars' : Vars) (x : Operand) → vars' ≡ vars → IsPlain vars x → IsPlain vars' x
same_vars-IsPlain vars vars' x e h = subst (λ v. IsPlain v x) (sym e) h

module _ (hooks : Hooks) where
  -- what a function of the table does to the entries
  abbrev pub SameVars : State → Result → Type 0
  SameVars s r = r.1.vars ≡ s.vars

  if-SameVars :
      (b : Bool) (s : State) (r r' : Result)
      → SameVars s r
      → SameVars s r'
      → SameVars s (if b then r else r')
  if-SameVars true s r r' h h' = h
  if-SameVars false s r r' h h' = h'

  text-SameVars :
      (text : Bytes) (r : ℕ × Bytes) (s : State) → r.1 ≡ [] → SameVars s (text_value hooks text r s)
  unfolding text_value
  text-SameVars text (n, []) s h = refl
  text-SameVars text (n, c ∷ rest) s h = absurd (ground arith)

  val-SameVars : (v : Option Bytes) (s : State) → IsNumeric v → SameVars s (val_value hooks v s)
  unfolding val_value IsNumeric
  val-SameVars none s h = refl
  val-SameVars (some text) s h = text-SameVars text (strtol text) s h

  item-SameVars : (x : Operand) (s : State) → IsPlain s.vars x → SameVars s (item_value hooks x s)
  unfolding item_value IsPlain
  item-SameVars (long_int n) s h = refl
  item-SameVars (var_ptr a) s h = val-SameVars (s.vars a).val s h.2

  pub long-SameVars :
      (x : Operand) (s : State) → IsPlain s.vars x → SameVars s (long_value hooks x s)
  unfolding long_value
  long-SameVars x s h =
      if-SameVars s.error s (0, s) (item_value hooks x s) refl (item-SameVars x s h)

  both-SameVars :
      (a b : Operand) (s : State)
      → IsPlain s.vars a
      → IsPlain s.vars b
      → SameVars s (long_value hooks b (long_value hooks a s).1)
  both-SameVars a b s pa pb =
      let first = long-SameVars a s pa in
      long-SameVars b (long_value hooks a s).1 (same_vars-IsPlain s.vars _ b first pb) ∙ first

  pub unary-SameVars :
      (f : ℕ → ℕ) (a : Operand) (s : State) → IsPlain s.vars a → SameVars s (eval_unary hooks f a s)
  unfolding eval_unary
  unary-SameVars f a s pa = long-SameVars a s pa

  pub binary-SameVars :
      (f : ℕ → ℕ → ℕ) (a b : Operand) (s : State)
      → IsPlain s.vars a
      → IsPlain s.vars b
      → SameVars s (eval_binary hooks f a b s)
  unfolding eval_binary
  binary-SameVars f a b s pa pb = both-SameVars a b s pa pb

  pub logical-SameVars :
      (conj : Bool) (f : ℕ → ℕ → ℕ) (a b : Operand) (s : State)
      → IsPlain s.vars a
      → IsPlain s.vars b
      → SameVars s (eval_logical hooks conj f a b s)
  unfolding eval_logical
  logical-SameVars conj f a b s pa pb =
      let first = long-SameVars a s pa in
      let both = both-SameVars a b s pa pb in
      if-SameVars ((long_value hooks a s).0 == 0) s _ _ (if-SameVars conj s _ _ first both)
        (if-SameVars conj s _ _ both first)

  pub divide-SameVars :
      (f : ℕ → ℕ → ℕ) (a b : Operand) (s : State)
      → IsPlain s.vars a
      → IsPlain s.vars b
      → SameVars s (eval_divide hooks f a b s)
  unfolding eval_divide raise
  divide-SameVars f a b s pa pb =
      let s0 = record s { error = false } in
      if-SameVars ((long_value hooks b s0).0 == 0) s _ _ (long-SameVars b s0 pb)
        (both-SameVars b a s0 pb pa)
