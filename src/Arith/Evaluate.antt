-- ===== src/Arith/Evaluate.antt =====
-- arithm_expand() of src/shunt.c behind its lexer computes what the operator table says.
use layla_shell.Arith.Machine.{Evaluator, ◌>>=◌}
use layla_shell.Arith.Run.{loop, evaluate, startop, takes_operand}
use layla_shell.Arith.Grammar.{Expr, tokens, lexemes, Fits, count_ops, count_items, meaning}
use layla_shell.Arith.Steps.{run, calc, bind_some}
use layla_shell.Arith.Correct.{run_tree}
use layla_shell.Arith.Choose.{Ready, loop-run, is_comma}
use layla_shell.Prelude.{◌≤◌, ◌≡◌, refl, some, [], sym, ap, ◌∙◌, append-nil}

start-Ready : Ready startop
start-Ready = unfold takes_operand is_comma in (refl, refl)

module _ {V St : Type 0} (ev : Evaluator V St) where
  loop-tree :
      (e : Expr V) (st : St)
      → Fits e
      → loop ev (lexemes e) startop (calc [] [] st) ≡ run ev (tokens e) (calc [] [] st)
  unfolding loop
  loop-tree e st f =
      ap (λ x. loop ev x startop (calc [] [] st)) (sym (append-nil (lexemes e)))
      ∙ loop-run ev e [] startop (calc [] [] st) f start-Ready
      ∙ bind_some (run ev (tokens e) (calc [] [] st))

  -- Take a tree whose operators stand in their kinds' places, whose operands bind more tightly than
  -- the operator over them (or as tightly, on the side that it associates to), and which has at most
  -- 64 operators and `(`, and at most 64 operands. On the lexemes of the tree evaluate() returns what
  -- the tree means: each operator applied once, to the results of its operands, the left one first, with
  -- the variables passed on in that order; where an operator fails the evaluation fails.
  pub evaluate-lexemes :
      (e : Expr V) (st : St)
      → Fits e
      → count_ops e ≤ 64
      → count_items e ≤ 64
      → evaluate ev (lexemes e) st ≡ (meaning ev e st >>= λ r. some (some r.0, r.1))
  unfolding evaluate
  evaluate-lexemes e st f room_ops room_ns =
      rw (loop-tree e st f) (run_tree ev e st f room_ops room_ns)
