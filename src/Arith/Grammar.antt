-- ===== src/Arith/Grammar.antt =====
-- The expressions that the operator table stands for, independent of any stack: their tokens, when
-- a tree is the reading of its tokens, and what a tree evaluates to.
use layla_shell.Arith.Op.{
  Op, post_inc, post_dec, pre_inc, pre_dec, uminus, uplus, log_not, bit_not, add, sub, lbrace,
  rbrace, comma, prec,
}
use layla_shell.Arith.Run.{Lexeme, operator}
use layla_shell.Arith.Machine.{Item, long_int, Evaluator, ◌>>=◌, threshold}
use layla_shell.Prelude.{
  ℕ, ◌+◌, ◌<◌, ◌≤◌, ◌≡◌, Bool, true, false, Option, some, List, [], ◌∷◌, ◌++◌,
}

pub data Expr (V : Type 0) : Type 0 where
  operand : Item V → Expr V
  binary : Op → Expr V → Expr V → Expr V
  prefix postfix : Op → Expr V → Expr V
  group : Expr V → Expr V

pub data Token (V : Type 0) : Type 0 where
  item : Item V → Token V
  op : Op → Token V

-- where an operator stands: in front of its operand, behind it, or between two
pub data Kind : Type 0 where
  prefix_op postfix_op binary_op brace : Kind

unfoldable pub kind : Op → Kind
kind post_inc = postfix_op
kind post_dec = postfix_op
kind pre_inc = prefix_op
kind pre_dec = prefix_op
kind uminus = prefix_op
kind uplus = prefix_op
kind log_not = prefix_op
kind bit_not = prefix_op
kind lbrace = brace
kind rbrace = brace
kind comma = brace
kind _ = binary_op

-- how an operator is written: the one get_op() takes the text for, and whether an operand precedes it
unfoldable pub spelled : Op → Op × Bool
spelled uminus = (sub, false)
spelled uplus = (add, false)
spelled pre_inc = (post_inc, false)
spelled pre_dec = (post_dec, false)
spelled o = (o, true)

abbrev pub written : {V : Type 0} → Op → Lexeme V
written o = operator (spelled o).0 (spelled o).1

module _ {V : Type 0} where
  abbrev pub tokens : Expr V → List (Token V)
  tokens (operand i) = item i ∷ []
  tokens (binary o l r) = tokens l ++ op o ∷ tokens r
  tokens (prefix o e) = op o ∷ tokens e
  tokens (postfix o e) = tokens e ++ op o ∷ []
  tokens (group e) = op lbrace ∷ tokens e ++ op rbrace ∷ []

  -- the text that the loop of arithm_expand() reads
  abbrev pub lexemes : Expr V → List (Lexeme V)
  lexemes (operand i) = Lexeme.item i ∷ []
  lexemes (binary o l r) = lexemes l ++ written o ∷ lexemes r
  lexemes (prefix o e) = written o ∷ lexemes e
  lexemes (postfix o e) = lexemes e ++ written o ∷ []
  lexemes (group e) = written lbrace ∷ lexemes e ++ written rbrace ∷ []

  -- the precedence of the outermost operator, and the one that it takes operators off the stack from
  abbrev pub tree_prec : Expr V → ℕ
  tree_prec (operand i) = 21
  tree_prec (binary o l r) = prec o
  tree_prec (prefix o e) = prec o
  tree_prec (postfix o e) = prec o
  tree_prec (group e) = 21

  abbrev pub tree_threshold : Expr V → ℕ
  tree_threshold (operand i) = 21
  tree_threshold (binary o l r) = threshold o
  tree_threshold (prefix o e) = threshold o
  tree_threshold (postfix o e) = threshold o
  tree_threshold (group e) = 21

  -- a left operand binds at least as tightly as a left-associative operator, and more tightly than a
  -- right-associative one; a right operand the other way round
  abbrev pub Fits : Expr V → Type 0
  Fits (operand i) = Unit
  Fits (binary o l r) =
      (kind o ≡ binary_op)
      × Fits l
      × Fits r
      × (threshold o ≤ tree_prec l)
      × (prec o < tree_threshold r)
  Fits (prefix o e) = (kind o ≡ prefix_op) × Fits e × (prec o < tree_threshold e)
  Fits (postfix o e) = (kind o ≡ postfix_op) × Fits e × (threshold o ≤ tree_prec e)
  Fits (group e) = Fits e

  abbrev pub count_ops : Expr V → ℕ
  count_ops (operand i) = 0
  count_ops (binary o l r) = count_ops l + count_ops r + 1
  count_ops (prefix o e) = count_ops e + 1
  count_ops (postfix o e) = count_ops e + 1
  count_ops (group e) = count_ops e + 1

  abbrev pub count_items : Expr V → ℕ
  count_items (operand i) = 1
  count_items (binary o l r) = count_items l + count_items r
  count_items (prefix o e) = count_items e
  count_items (postfix o e) = count_items e
  count_items (group e) = count_items e

module _ {V St : Type 0} (ev : Evaluator V St) where
  number_of : Option (ℕ × St) → Option (Item V × St)
  number_of r = do (v, st) ← r; some (long_int v, st)

  -- operands first, the left one first; a variable is read when its operator is applied
  unfoldable pub meaning : Expr V → St → Option (Item V × St)
  meaning (operand i) st = some (i, st)
  meaning (binary o l r) st = do
    (a, st1) ← meaning l st
    (b, st2) ← meaning r st1
    (v, st3) ← ev.eval o a b st2
    some (long_int v, st3)
  meaning (prefix o e) st = do
    (a, st1) ← meaning e st
    (v, st2) ← ev.eval o a (long_int 0) st1
    some (long_int v, st2)
  meaning (postfix o e) st = do
    (a, st1) ← meaning e st
    (v, st2) ← ev.eval o a (long_int 0) st1
    some (long_int v, st2)
  meaning (group e) st = meaning e st
