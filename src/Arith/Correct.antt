-- ===== src/Arith/Correct.antt =====
-- The machine of src/shunt.c evaluates the tokens of a tree to what the tree means.
use layla_shell.Arith.Op.{Op, lbrace, rbrace, prec}
use layla_shell.Arith.Machine.{
  Item, Calc, Evaluator, is_lbrace, ◌>>=◌, pop_lbrace, shunt_op, flush_loop, finish, take_result,
}
use layla_shell.Arith.Drain.{drain, close_loop-drain, flush_loop-drain}
use layla_shell.Arith.Grammar.{
  Expr, operand, binary, prefix, postfix, group, op, tokens, tree_threshold, Fits, count_ops,
  count_items, meaning,
}
use layla_shell.Arith.Steps.{
  feed, run, bind_assoc, bind_congr, calc, push_opstack-room, bind_some, run-append, settle,
  tree_threshold_bounds, tree_prec_pos,
}
use layla_shell.Prelude.{
  ◌+◌, ◌<◌, ◌≤◌, ◌≡◌, refl, false, Option, none, some, List, [], ◌∷◌, ◌++◌, arith, length, ap, sym,
  ◌∙◌,
}
use layla_shell.Arith.Sim.{Sim, operand-Sim, prefix-Sim, postfix-Sim, binary-Sim}

module _ {V St : Type 0} (ev : Evaluator V St) where
  shunt-rbrace :
      (c : Calc V St)
      → run ev (op rbrace ∷ []) c ≡ (settle ev is_lbrace some c >>= λ d. pop_lbrace d.opstack d)
  unfolding run feed shunt_op
  shunt-rbrace c = bind_some _ ∙ (rw close_loop-drain)

  not_lbrace : (o : Op) → 1 ≤ prec o → is_lbrace o ≡ false
  unfolding prec is_lbrace
  not_lbrace lbrace h = absurd (omega arith)
  not_lbrace _ h = refl

  lbrace_below : (e : Expr V) → Fits e → prec lbrace < tree_threshold e
  unfolding prec
  lbrace_below e f = omega (arith, tree_prec_pos e f, tree_threshold_bounds e)

  close_group :
      (ops : List Op) (ns : List (Item V)) (r : Item V × St)
      → (drain ev is_lbrace some (lbrace ∷ ops) (calc (lbrace ∷ ops) (r.0 ∷ ns) r.1) >>= λ c.
          pop_lbrace c.opstack c)
        ≡ some (calc ops (r.0 ∷ ns) r.1)
  unfolding drain is_lbrace pop_lbrace
  close_group ops ns r = refl

  finish_one :
      (r : Item V × St)
      → (drain ev is_lbrace (λ _. none) [] (calc [] (r.0 ∷ []) r.1) >>= finish)
        ≡ some (some r.0, r.1)
  unfolding drain finish take_result
  finish_one r = refl

  run-group :
      (e : Expr V) (ops : List Op) (ns : List (Item V)) (st : St)
      → Fits e
      → Sim ev e
      → length ops + count_ops e < 64
      → length ns + count_items e ≤ 64
      → run ev (tokens e ++ op rbrace ∷ []) (calc (lbrace ∷ ops) ns st)
        ≡ (meaning ev e st >>= λ r. some (calc ops (r.0 ∷ ns) r.1))
  run-group e ops ns st f ih room_ops room_ns =
      let start = run ev (tokens e) (calc (lbrace ∷ ops) ns st) in
      run-append ev (tokens e) (op rbrace ∷ []) (calc (lbrace ∷ ops) ns st)
      ∙ bind_congr start _ _ (λ c. shunt-rbrace c)
      ∙ sym (bind_assoc start (settle ev is_lbrace some) (λ c. pop_lbrace c.opstack c))
      ∙ ap (λ (x : Option (Calc V St)). x >>= λ c. pop_lbrace c.opstack c)
          (ih is_lbrace some (lbrace ∷ ops) ns st
            (λ o h. not_lbrace o (omega (arith, tree_prec_pos e f))) (lbrace_below e f)
            (omega arith) room_ns)
      ∙ bind_assoc (meaning ev e st)
          (λ r. drain ev is_lbrace some (lbrace ∷ ops) (calc (lbrace ∷ ops) (r.0 ∷ ns) r.1))
          (λ c. pop_lbrace c.opstack c)
      ∙ bind_congr (meaning ev e st) _ _ (close_group ops ns)

  group-Sim : (e : Expr V) → Fits e → Sim ev e → Sim ev (group e)
  unfolding run feed meaning shunt_op
  group-Sim e f ih stop exit ops ns st go below room_ops room_ns =
      rw
        (
          push_opstack-room lbrace ops ns st (omega arith),
          run-group e ops ns st f ih (omega arith) room_ns,
        )
        (bind_assoc (meaning ev e st) _ (settle ev stop exit))

  tree-Sim : (e : Expr V) → Fits e → Sim ev e
  tree-Sim (operand i) f = operand-Sim ev i
  tree-Sim (binary o l r) f = binary-Sim ev o l r f (tree-Sim l f.1) (tree-Sim r f.2)
  tree-Sim (prefix o e) f = prefix-Sim ev o e f (tree-Sim e f.1)
  tree-Sim (postfix o e) f = postfix-Sim ev o e f (tree-Sim e f.1)
  tree-Sim (group e) f = group-Sim e f (tree-Sim e f)

  -- the machine alone, fed with operators that are chosen already
  pub run_tree :
      (e : Expr V) (st : St)
      → Fits e
      → count_ops e ≤ 64
      → count_items e ≤ 64
      → (run ev (tokens e) (calc [] [] st) >>= λ c. flush_loop ev c.opstack c >>= finish)
        ≡ (meaning ev e st >>= λ r. some (some r.0, r.1))
  run_tree e st f room_ops room_ns =
      let start = run ev (tokens e) (calc [] [] st) in
      bind_congr start _ _ (λ c.
        ap (λ (l : Calc V St → Option (Calc V St)). l c >>= finish) (flush_loop-drain ev c.opstack))
      ∙ sym (bind_assoc start (settle ev is_lbrace (λ _. none)) finish)
      ∙ ap (λ (x : Option (Calc V St)). x >>= finish)
          (tree-Sim e f is_lbrace (λ _. none) [] [] st
            (λ o h. not_lbrace o (omega (arith, tree_prec_pos e f))) tt (omega arith) (omega arith))
      ∙ bind_assoc (meaning ev e st)
          (λ r. drain ev is_lbrace (λ _. none) [] (calc [] (r.0 ∷ []) r.1)) finish
      ∙ bind_congr (meaning ev e st) _ _ finish_one
