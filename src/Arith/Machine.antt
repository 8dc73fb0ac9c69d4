-- ===== src/Arith/Machine.antt =====
-- The two stacks of src/shunt.c, and shunt_op(). The machine is generic in the state `St` in which
-- operators are evaluated (the shell's variables) and in `eval`, the functions of the operator
-- table; `none` is a raised error flag, after which arithm_expand() gives up.
use layla_shell.Arith.Op.{Op, lbrace, rbrace, comma, assoc_right, prec, assoc, unary}
use layla_shell.Prelude.{
  ℕ, ◌+◌, Bool, true, false, Option, none, some, List, [], ◌∷◌, ltb, leb, length, if◌then◌else◌,
}

-- an operand: a number, or a variable that is read when an operator is applied to it
pub data Item (V : Type 0) : Type 0 where
  long_int : ℕ → Item V
  var_ptr : V → Item V

infixl 5 ◌>>=◌
abbrev pub ◌>>=◌ : {A B : Type 0} → Option A → (A → Option B) → Option B
none >>= f = none
some a >>= f = f a

abbrev pub max_op_stack : ℕ
max_op_stack = 64

abbrev pub max_num_stack : ℕ
max_num_stack = 64

-- `eval` gets the operands in the order of the C functions; a unary operator ignores the second
pub record Evaluator (V St : Type 0) : Type 0 where
  pub eval : Op → Item V → Item V → St → Option (ℕ × St)

-- the stacks, their tops first, and the variables
pub record Calc (V St : Type 0) : Type 0 where
  pub opstack : List Op
  pub numstack : List (Item V)
  pub vars : St

unfoldable pub is_lbrace : Op → Bool
is_lbrace lbrace = true
is_lbrace _ = false

-- `op->prec < top` for a right-associative operator, `op->prec <= top` for any other
unfoldable pub threshold : Op → ℕ
threshold op = elim (assoc op) [ assoc_right ↦ prec op + 1 | _ ↦ prec op ]

module _ {V St : Type 0} where
  unfoldable pub push_opstack : Op → Calc V St → Option (Calc V St)
  push_opstack op c =
      if ltb (length c.opstack) max_op_stack
      then some (record c { opstack = op ∷ c.opstack })
      else none

  -- push_numstackl() and push_numstackv()
  unfoldable pub push_numstack : Item V → Calc V St → Option (Calc V St)
  push_numstack item c =
      if ltb (length c.numstack) max_num_stack
      then some (record c { numstack = item ∷ c.numstack })
      else none

  -- a `)` takes its `(` off the stack
  unfoldable pub pop_lbrace : List Op → Calc V St → Option (Calc V St)
  pop_lbrace [] c = none
  pop_lbrace (top ∷ ops) c = if is_lbrace top then some (record c { opstack = ops }) else none

module _ {V St : Type 0} (ev : Evaluator V St) where
  -- an operator that was popped is applied to the operands on the stack
  unfoldable pub apply_unary : Op → List (Item V) → Calc V St → Option (Calc V St)
  apply_unary op [] c = none
  apply_unary op (n1 ∷ ns) c = do
    (v, vars) ← ev.eval op n1 (long_int 0) c.vars
    push_numstack (long_int v) (record c { numstack = ns; vars = vars })

  unfoldable pub apply_binary : Op → List (Item V) → Calc V St → Option (Calc V St)
  apply_binary op [] c = none
  apply_binary op (n1 ∷ []) c = none
  apply_binary op (n1 ∷ n2 ∷ ns) c = do
    (v, vars) ← ev.eval op n2 n1 c.vars
    push_numstack (long_int v) (record c { numstack = ns; vars = vars })

  unfoldable pub apply_op : Op → Calc V St → Option (Calc V St)
  apply_op op c = if unary op then apply_unary op c.numstack c else apply_binary op c.numstack c

  -- the loop for a `)` or a `,`, over the operators on the stack
  unfoldable pub close_loop : List Op → Calc V St → Option (Calc V St)
  close_loop [] c = some c
  close_loop (top ∷ ops) c =
      let next = apply_op top (record c { opstack = ops }) >>= close_loop ops in
      if is_lbrace top then some c else next

  -- the two loops for other operators: pop while the precedence on top is at least `least`
  unfoldable pub pop_loop : ℕ → List Op → Calc V St → Option (Calc V St)
  pop_loop least [] c = some c
  pop_loop least (top ∷ ops) c =
      let next = apply_op top (record c { opstack = ops }) >>= pop_loop least ops in
      if leb least (prec top) then next else some c

  unfoldable pub shunt_op : Op → Calc V St → Option (Calc V St)
  shunt_op lbrace c = push_opstack lbrace c
  shunt_op rbrace c = do c' ← close_loop c.opstack c; pop_lbrace c'.opstack c'
  shunt_op comma c = close_loop c.opstack c
  shunt_op op c = do c' ← pop_loop (threshold op) c.opstack c; push_opstack op c'

  -- the loop at the end of arithm_expand(); a `(` that is left has no `)`
  unfoldable pub flush_loop : List Op → Calc V St → Option (Calc V St)
  flush_loop [] c = some c
  flush_loop (top ∷ ops) c =
      let next = apply_op top (record c { opstack = ops }) >>= flush_loop ops in
      if is_lbrace top then none else next

unfoldable pub take_result : {V St : Type 0} → List (Item V) → St → Option (Option (Item V) × St)
take_result [] vars = some (none, vars)
take_result (i ∷ []) vars = some (some i, vars)
take_result (i ∷ j ∷ ns) vars = none

-- the end of arithm_expand(): no operand at all is the empty result, and more than one is an error
unfoldable pub finish : {V St : Type 0} → Calc V St → Option (Option (Item V) × St)
finish c = take_result c.numstack c.vars
