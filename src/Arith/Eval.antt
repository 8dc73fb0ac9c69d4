-- ===== src/Arith/Eval.antt =====
-- The functions of the operator table of src/shunt.c. `error` is the C flag; a variable is the address
-- of its entry. Of the two operands of a C operator the left one is evaluated first, which C leaves to
-- the compiler. The recursion of arithm_expand_recursive() is the `arithm_expand` of the hooks.
use layla_shell.Arith.Op.{Op}
use layla_shell.Arith.Machine.{Item, long_int, var_ptr, Evaluator}
use layla_shell.Arith.Word.{
  uminus_long, lognot_long, bitnot_long, mult_long, add_long, sub_long, lsh_long, rsh_long, lt_long,
  le_long, gt_long, ge_long, eq_long, ne_long, bitand_long, bitxor_long, bitor_long, logand_long,
  logor_long, do_eval_exp, quotient, remainder,
}
use layla_shell.Arith.Text.{strtol, print_long}
use layla_shell.Symtab.Entry.{
  Entry, Vars, Hooks, update, clear, symtab_entry_setval, tell_special, local, temp_var, readonly,
}
use layla_shell.Prelude.Bytes.{Bytes}
use layla_shell.Prelude.{
  ℕ, ◌+◌, ◌-◌, ◌^◌, ◌||◌, ltb, length, Bool, true, false, Option, none, some, [], ◌∷◌, ◌==◌,
  if◌then◌else◌,
}

-- `overrun` is set where sprintf() writes behind its buffer: the behaviour of the source is undefined then
pub record State : Type 0 where
  pub error : Bool
  pub vars : Vars
  pub overrun : Bool

-- the size of `buf` in eval_assign_val()
abbrev pub assign_buf : ℕ
assign_buf = 16

abbrev pub Operand : Type 0
Operand = Item ℕ

abbrev pub Result : Type 0
Result = ℕ × State

unfoldable pub raise : State → Result
raise s = (0, record s { error = true })

-- a variable that the expression added loses its mark
unfoldable pub adopt : Entry → Entry
adopt e = if e.flags temp_var then record e { flags = clear local (clear temp_var e.flags) } else e

module _ (hooks : Hooks) where
  -- the value of a string that is no number
  unfoldable pub expanded : Option Bytes × Vars → State → Result
  expanded (none, vars) s = (0, record s { error = true; vars = vars })
  expanded (some r, vars) s = ((strtol r).0, record s { vars = vars })

  unfoldable pub text_value : Bytes → ℕ × Bytes → State → Result
  text_value text (n, []) s = (n, s)
  text_value text (n, c ∷ rest) s = expanded (hooks.arithm_expand text s.vars) s

  unfoldable pub val_value : Option Bytes → State → Result
  val_value none s = (0, s)
  val_value (some text) s = text_value text (strtol text) s

  unfoldable pub item_value : Operand → State → Result
  item_value (long_int n) s = (n, s)
  item_value (var_ptr a) s = val_value (s.vars a).val s

  unfoldable pub long_value : Operand → State → Result
  long_value x s = let r = item_value x s in if s.error then (0, s) else r

  unfoldable pub eval_unary : (ℕ → ℕ) → Operand → State → Result
  eval_unary f a1 s = let (n, s1) = long_value a1 s in (f n, s1)

  unfoldable pub eval_binary : (ℕ → ℕ → ℕ) → Operand → Operand → State → Result
  eval_binary f a1 a2 s =
      let (n1, s1) = long_value a1 s in let (n2, s2) = long_value a2 s1 in (f n1 n2, s2)

  -- `&&` goes on to the second operand if the first is not 0, and `||` if it is 0
  unfoldable pub eval_logical : Bool → (ℕ → ℕ → ℕ) → Operand → Operand → State → Result
  eval_logical conj f a1 a2 s =
      let (n1, s1) = long_value a1 s in
      let (n2, s2) = long_value a2 s1 in
      if n1 == 0
      then (if conj then (0, s1) else (f n1 n2, s2))
      else if conj
      then (f n1 n2, s2)
      else (1, s1)

  -- eval_div() and eval_mod(): the divisor is evaluated first
  unfoldable pub eval_divide : (ℕ → ℕ → ℕ) → Operand → Operand → State → Result
  eval_divide f a1 a2 s =
      let (n2, s1) = long_value a2 (record s { error = false }) in
      let (n1, s2) = long_value a1 s1 in if n2 == 0 then raise s1 else (f n1 n2, s2)

  unfoldable pub assign_var : ℕ → ℕ → State → Result
  assign_var a val s =
      let vars = tell_special hooks a (print_long val) (update a (adopt (s.vars a)) s.vars) in
      let e = record (vars a) { val = some (print_long val) } in
      let written = length (print_long val) + 1 in
      let over = s.overrun || ltb assign_buf written in
      if (s.vars a).flags readonly
      then raise s
      else (val, record s { vars = update a e vars; overrun = over })

  unfoldable pub eval_assign_val : Operand → ℕ → State → Result
  eval_assign_val (long_int n) val s = raise s
  eval_assign_val (var_ptr a) val s = assign_var a val s

  unfoldable pub eval_assign : Operand → Operand → State → Result
  eval_assign a1 a2 s = let (n, s1) = long_value a2 s in eval_assign_val a1 n s1

  unfoldable pub eval_assign_ext :
      (Operand → Operand → State → Result) → Operand → Operand → State → Result
  eval_assign_ext f a1 a2 s = let (n, s1) = f a1 a2 s in eval_assign_val a1 n s1

  -- `pre`: the new value is the result
  unfoldable pub inc_dec_var : Bool → ℕ → ℕ → ℕ → State → Result
  inc_dec_var pre diff a val s =
      let new = add_long val diff in
      let stored = record s { vars = symtab_entry_setval hooks a (some (print_long new)) s.vars } in
      if (s.vars a).flags readonly then raise s else (if pre then new else val, stored)

  unfoldable pub change : Operand → Bool → ℕ → ℕ → State → Result
  change (long_int n) pre diff val s = raise s
  change (var_ptr a) pre diff val s = inc_dec_var pre diff a val s

  unfoldable pub do_eval_inc_dec : Bool → Bool → Operand → State → Result
  do_eval_inc_dec pre add a1 s =
      let (val, s1) = long_value a1 s in change a1 pre (if add then 1 else 2 ^ 64 - 1) val s1

  -- `op->eval`; the braces and the comma have no function and are never applied
  unfoldable pub eval : Op → Operand → Operand → State → Result
  eval Op.post_inc a b s = do_eval_inc_dec false true a s
  eval Op.post_dec a b s = do_eval_inc_dec false false a s
  eval Op.pre_inc a b s = do_eval_inc_dec true true a s
  eval Op.pre_dec a b s = do_eval_inc_dec true false a s
  eval Op.uminus a b s = eval_unary uminus_long a s
  eval Op.uplus a b s = eval_unary (λ n. n) a s
  eval Op.log_not a b s = eval_unary lognot_long a s
  eval Op.bit_not a b s = eval_unary bitnot_long a s
  eval Op.exp a b s = eval_binary do_eval_exp a b s
  eval Op.mult a b s = eval_binary mult_long a b s
  eval Op.div a b s = eval_divide quotient a b s
  eval Op.mod_op a b s = eval_divide remainder a b s
  eval Op.add a b s = eval_binary add_long a b s
  eval Op.sub a b s = eval_binary sub_long a b s
  eval Op.lsh a b s = eval_binary lsh_long a b s
  eval Op.rsh a b s = eval_binary rsh_long a b s
  eval Op.lt a b s = eval_binary lt_long a b s
  eval Op.le a b s = eval_binary le_long a b s
  eval Op.gt a b s = eval_binary gt_long a b s
  eval Op.ge a b s = eval_binary ge_long a b s
  eval Op.eq a b s = eval_binary eq_long a b s
  eval Op.ne a b s = eval_binary ne_long a b s
  eval Op.bit_and a b s = eval_binary bitand_long a b s
  eval Op.bit_xor a b s = eval_binary bitxor_long a b s
  eval Op.bit_or a b s = eval_binary bitor_long a b s
  eval Op.log_and a b s = eval_logical true logand_long a b s
  eval Op.log_or a b s = eval_logical false logor_long a b s
  eval Op.assign a b s = eval_assign a b s
  eval Op.assign_add a b s = eval_assign_ext (eval_binary add_long) a b s
  eval Op.assign_sub a b s = eval_assign_ext (eval_binary sub_long) a b s
  eval Op.assign_mult a b s = eval_assign_ext (eval_binary mult_long) a b s
  eval Op.assign_div a b s = eval_assign_ext (eval_divide quotient) a b s
  eval Op.assign_mod a b s = eval_assign_ext (eval_divide remainder) a b s
  eval Op.assign_lsh a b s = eval_assign_ext (eval_binary lsh_long) a b s
  eval Op.assign_rsh a b s = eval_assign_ext (eval_binary rsh_long) a b s
  eval Op.assign_and a b s = eval_assign_ext (eval_binary bitand_long) a b s
  eval Op.assign_xor a b s = eval_assign_ext (eval_binary bitxor_long) a b s
  eval Op.assign_or a b s = eval_assign_ext (eval_binary bitor_long) a b s
  eval _ a b s = raise s

  -- the table's functions for the machine, which gives up when the error flag is raised, and of which
  -- nothing is known after an overrun
  unfoldable pub checked : Result → Option (ℕ × Vars)
  checked (n, s) = if s.error || s.overrun then none else some (n, s.vars)

  abbrev pub operators : Evaluator ℕ Vars
  operators = record {
    eval =
        λ o a b vars. checked (eval o a b (record { error = false; vars = vars; overrun = false }));
  }
