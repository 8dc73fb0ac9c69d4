-- ===== src/Arith/Run.antt =====
-- The loop of arithm_expand() of src/shunt.c behind its lexer: from the operands and the operators
-- that get_op() finds it chooses between unary and binary readings, and feeds the machine; at the end
-- the operators that are left are popped.
use layla_shell.Arith.Op.{
  Op, post_inc, post_dec, pre_inc, pre_dec, uminus, uplus, add, sub, lbrace, rbrace, comma, unary,
}
use layla_shell.Arith.Machine.{
  Item, long_int, var_ptr, Calc, Evaluator, ◌>>=◌, push_numstack, shunt_op, flush_loop, finish,
}
use layla_shell.Prelude.{Option, none, some, List, [], ◌∷◌, Bool, true, false, if◌then◌else◌}

-- an operand, or an operator as get_op() returns it with the answer of is_post_op()
pub data Lexeme (V : Type 0) : Type 0 where
  item : Item V → Lexeme V
  operator : Op → Bool → Lexeme V

-- `lastop`: `&startop`, NULL behind an operand, or the last operator
pub data LastOp : Type 0 where
  startop null : LastOp
  last : Op → LastOp

unfoldable pub takes_operand : LastOp → Bool
takes_operand startop = true
takes_operand null = false
takes_operand (last rbrace) = false
takes_operand (last post_inc) = false
takes_operand (last post_dec) = false
takes_operand (last _) = true

-- an operator where an operand is due
unfoldable pub unary_op : Op → Option Op
unary_op sub = some uminus
unary_op add = some uplus
unary_op lbrace = some lbrace
unary_op o = if unary o then some o else none

unfoldable pub fix_pre_post : Op → Bool → Op
fix_pre_post post_inc false = pre_inc
fix_pre_post post_dec false = pre_dec
fix_pre_post o _ = o

unfoldable pub choose_op : LastOp → Op → Bool → Option Op
choose_op lastop o post = do
  o' ← (if takes_operand lastop then unary_op o else some o)
  some (fix_pre_post o' post)

module _ {V St : Type 0} where
  -- pop_numstack() in front of the operand behind a `,`; a variable clears the error of an empty stack
  unfoldable pub discard : Item V → List (Item V) → Calc V St → Option (Calc V St)
  discard i (n ∷ ns) c = some (record c { numstack = ns })
  discard (long_int n) [] c = none
  discard (var_ptr v) [] c = some c

  unfoldable pub discard_comma : LastOp → Item V → Calc V St → Option (Calc V St)
  discard_comma (last comma) i c = discard i c.numstack c
  discard_comma _ i c = some c

module _ {V St : Type 0} (ev : Evaluator V St) where
  unfoldable pub loop : List (Lexeme V) → LastOp → Calc V St → Option (Calc V St)
  loop [] lastop c = some c
  loop (item i ∷ ts) lastop c = do
    c1 ← discard_comma lastop i c
    c2 ← push_numstack i c1
    loop ts null c2
  loop (operator o post ∷ ts) lastop c = do
    o' ← choose_op lastop o post
    c1 ← shunt_op ev o' c
    loop ts (last o') c1

  unfoldable pub evaluate : List (Lexeme V) → St → Option (Option (Item V) × St)
  evaluate ts vars = do
    c ← loop ts startop (record { opstack = []; numstack = []; vars = vars })
    c' ← flush_loop ev c.opstack c
    finish c'
