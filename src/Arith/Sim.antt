-- ===== src/Arith/Sim.antt =====
-- The machine of src/shunt.c on the tokens of one operator and its operands.
use native.Mathlib.Nat.{le_refl}
use layla_shell.Arith.Op.{Op, prec, unary}
use layla_shell.Arith.Machine.{
  Item, long_int, Calc, Evaluator, ◌>>=◌, push_opstack, apply_op, threshold, shunt_op,
}
use layla_shell.Arith.Drain.{drain, drain_go}
use layla_shell.Arith.Grammar.{
  Expr, operand, binary, prefix, postfix, Token, op, tokens, tree_prec, tree_threshold, Fits,
  count_ops, count_items, meaning,
}
use layla_shell.Arith.Steps.{
  feed, run, binary_prec, prefix_prec, postfix_prec, binary-unary, prefix-unary, postfix-unary,
  bind_assoc, bind_congr, calc, push_numstack-room, push_opstack-room, run-append, settle,
  below_threshold, shunt_op-settle, apply_op-unary, apply_op-binary, Below, Below-mono,
  settle-Below, tree_threshold_bounds, count_items_pos,
}
use layla_shell.Prelude.{
  ℕ, ◌+◌, ◌<◌, ◌≤◌, ◌≡◌, Bool, true, false, Option, some, List, [], ◌∷◌, ◌++◌, arith, length, ap,
  sym, ◌∙◌,
}

module _ {V St : Type 0} (ev : Evaluator V St) where
  -- from any stacks that the tree does not disturb, its tokens leave its meaning on the operand stack
  -- once the operators that are left on the stack are popped
  abbrev pub Sim : Expr V → Type 0
  Sim e =
      (stop : Op → Bool) (exit : Calc V St → Option (Calc V St)) (ops : List Op)
      (ns : List (Item V)) (st : St)
      → ((o : Op) → tree_prec e ≤ prec o → stop o ≡ false)
      → Below ops (tree_threshold e)
      → length ops + count_ops e ≤ 64
      → length ns + count_items e ≤ 64
      → (run ev (tokens e) (calc ops ns st) >>= settle ev stop exit)
        ≡ (meaning ev e st >>= λ r. drain ev stop exit ops (calc ops (r.0 ∷ ns) r.1))

  pub operand-Sim : (i : Item V) → Sim (operand i)
  unfolding run feed meaning
  operand-Sim i stop exit ops ns st go below room_ops room_ns =
      rw (push_numstack-room i ops ns st (omega arith))

  -- an operator is pushed over operators that bind less tightly
  shunt-push :
      (o : Op) (ops : List Op) (ns : List (Item V)) (st : St)
      → 1 ≤ prec o
      → Below ops (threshold o)
      → length ops < 64
      → shunt_op ev o (calc ops ns st) ≡ some (calc (o ∷ ops) ns st)
  shunt-push o ops ns st p below room =
      rw (shunt_op-settle ev o (calc ops ns st) p, settle-Below ev o ops ns st below)
        (push_opstack-room o ops ns st room)

  abbrev number : ℕ × St → Option (Item V × St)
  number r = some (long_int r.0, r.1)

  -- popping an operator is evaluating it
  drain-apply :
      (stop : Op → Bool) (exit : Calc V St → Option (Calc V St)) (o : Op) (ops : List Op)
      (operands ns : List (Item V)) (st : St) (m : Option (ℕ × St))
      → stop o ≡ false
      → apply_op ev o (calc ops operands st) ≡ (m >>= λ r. some (calc ops (long_int r.0 ∷ ns) r.1))
      → drain ev stop exit (o ∷ ops) (calc (o ∷ ops) operands st)
        ≡ ((m >>= number) >>= λ r. drain ev stop exit ops (calc ops (r.0 ∷ ns) r.1))
  drain-apply stop exit o ops operands ns st m go run_it =
      drain_go ev stop exit o ops (calc (o ∷ ops) operands st) go
      ∙ ap (λ (x : Option (Calc V St)). x >>= drain ev stop exit ops) run_it
      ∙ bind_assoc m (λ r. some (calc ops (long_int r.0 ∷ ns) r.1)) (drain ev stop exit ops)
      ∙ sym (bind_assoc m number (λ r. drain ev stop exit ops (calc ops (r.0 ∷ ns) r.1)))

  drain-unary :
      (stop : Op → Bool) (exit : Calc V St → Option (Calc V St)) (o : Op) (ops : List Op)
      (a : Item V) (ns : List (Item V)) (st : St)
      → unary o ≡ true
      → stop o ≡ false
      → length ns < 64
      → drain ev stop exit (o ∷ ops) (calc (o ∷ ops) (a ∷ ns) st) ≡ (
          (ev.eval o a (long_int 0) st >>= number) >>= λ r.
          drain ev stop exit ops (calc ops (r.0 ∷ ns) r.1))
  drain-unary stop exit o ops a ns st u go room =
      drain-apply stop exit o ops (a ∷ ns) ns st (ev.eval o a (long_int 0) st) go
        (apply_op-unary ev o a ops ns st u room)

  pub prefix-Sim : (o : Op) (e : Expr V) → Fits (prefix o e) → Sim e → Sim (prefix o e)
  unfolding run feed meaning
  prefix-Sim o e (k, f, lt) ih stop exit ops ns st go below room_ops room_ns =
      let p = prefix_prec o k in
      let u = prefix-unary o k in
      rw (shunt-push o ops ns st p below (omega arith)) (
        ih stop exit (o ∷ ops) ns st (λ o' le. go o' (omega (arith, tree_threshold_bounds e))) lt
          (omega arith) room_ns
        ∙ bind_congr (meaning ev e st) _ _ (λ r.
          drain-unary stop exit o ops r.0 ns r.1 u (go o (le_refl (prec o)))
            (omega (arith, count_items_pos e)))
        ∙ sym (
            bind_assoc (meaning ev e st) (λ r. ev.eval o r.0 (long_int 0) r.1 >>= number)
              (λ r. drain ev stop exit ops (calc ops (r.0 ∷ ns) r.1))))

  -- an operator is shunted behind a tree
  shunt-after :
      (o : Op) (e : Expr V) (ops : List Op) (ns : List (Item V)) (st : St)
      → Sim e
      → 1 ≤ prec o
      → threshold o ≤ tree_prec e
      → Below ops (threshold o)
      → length ops + count_ops e < 64
      → length ns + count_items e ≤ 64
      → (run ev (tokens e) (calc ops ns st) >>= shunt_op ev o)
        ≡ (meaning ev e st >>= λ r. some (calc (o ∷ ops) (r.0 ∷ ns) r.1))
  shunt-after o e ops ns st ih p le below room_ops room_ns =
      bind_congr (run ev (tokens e) (calc ops ns st)) _ _ (λ c. shunt_op-settle ev o c p)
      ∙ sym (
          bind_assoc (run ev (tokens e) (calc ops ns st)) (settle ev (below_threshold o) some)
            (push_opstack o))
      ∙ ap (λ (x : Option (Calc V St)). x >>= push_opstack o)
          (ih (below_threshold o) some ops ns st (λ o' h. ground arith)
            (Below-mono ops (threshold o) (tree_threshold e) below
              (omega (arith, tree_threshold_bounds e)))
            (omega arith) room_ns)
      ∙ bind_assoc (meaning ev e st) _ (push_opstack o)
      ∙ bind_congr (meaning ev e st) _ _ (λ r.
        ap (λ (x : Option (Calc V St)). x >>= push_opstack o)
          (settle-Below ev o ops (r.0 ∷ ns) r.1 below)
        ∙ push_opstack-room o ops (r.0 ∷ ns) r.1 (omega arith))

  -- the tokens of a tree, then an operator, then more tokens
  run-after :
      (o : Op) (ts : List (Token V)) (e : Expr V) (ops : List Op) (ns : List (Item V)) (st : St)
      → Sim e
      → 1 ≤ prec o
      → threshold o ≤ tree_prec e
      → Below ops (threshold o)
      → length ops + count_ops e < 64
      → length ns + count_items e ≤ 64
      → run ev (tokens e ++ op o ∷ ts) (calc ops ns st)
        ≡ (meaning ev e st >>= λ r. run ev ts (calc (o ∷ ops) (r.0 ∷ ns) r.1))
  unfolding run feed
  run-after o ts e ops ns st ih p le below room_ops room_ns =
      run-append ev (tokens e) (op o ∷ ts) (calc ops ns st)
      ∙ sym (bind_assoc (run ev (tokens e) (calc ops ns st)) (shunt_op ev o) (run ev ts))
      ∙ ap (λ (x : Option (Calc V St)). x >>= run ev ts)
          (shunt-after o e ops ns st ih p le below room_ops room_ns)
      ∙ bind_assoc (meaning ev e st) _ (run ev ts)

  pub postfix-Sim : (o : Op) (e : Expr V) → Fits (postfix o e) → Sim e → Sim (postfix o e)
  unfolding run meaning
  postfix-Sim o e (k, f, le) ih stop exit ops ns st go below room_ops room_ns =
      let p = postfix_prec o k in
      let u = postfix-unary o k in
      let done = λ (r : Item V × St). drain ev stop exit ops (calc ops (r.0 ∷ ns) r.1) in
      ap (λ (x : Option (Calc V St)). x >>= settle ev stop exit)
        (run-after o [] e ops ns st ih p le below (omega arith) room_ns)
      ∙ bind_assoc (meaning ev e st) _ (settle ev stop exit)
      ∙ bind_congr (meaning ev e st) _ _ (λ r.
        drain-unary stop exit o ops r.0 ns r.1 u (go o (le_refl (prec o)))
          (omega (arith, count_items_pos e)))
      ∙ sym (bind_assoc (meaning ev e st) (λ r. ev.eval o r.0 (long_int 0) r.1 >>= number) done)

  drain-binary :
      (stop : Op → Bool) (exit : Calc V St → Option (Calc V St)) (o : Op) (ops : List Op)
      (a b : Item V) (ns : List (Item V)) (st : St)
      → unary o ≡ false
      → stop o ≡ false
      → length ns < 64
      → drain ev stop exit (o ∷ ops) (calc (o ∷ ops) (b ∷ a ∷ ns) st)
        ≡ ((ev.eval o a b st >>= number) >>= λ r. drain ev stop exit ops (calc ops (r.0 ∷ ns) r.1))
  drain-binary stop exit o ops a b ns st u go room =
      drain-apply stop exit o ops (b ∷ a ∷ ns) ns st (ev.eval o a b st) go
        (apply_op-binary ev o a b ops ns st u room)

  pub binary-Sim :
      (o : Op) (l r : Expr V) → Fits (binary o l r) → Sim l → Sim r → Sim (binary o l r)
  unfolding meaning
  binary-Sim o l r (k, fl, fr, le, lt) ihl ihr stop exit ops ns st go below room_ops room_ns =
      let p = binary_prec o k in
      let u = binary-unary o k in
      let done = λ (x : Item V × St). drain ev stop exit ops (calc ops (x.0 ∷ ns) x.1) in
      ap (λ (x : Option (Calc V St)). x >>= settle ev stop exit)
        (run-after o (tokens r) l ops ns st ihl p le below (omega arith) (omega arith))
      ∙ bind_assoc (meaning ev l st) _ (settle ev stop exit)
      ∙ bind_congr (meaning ev l st) _ _ (λ a.
        ihr stop exit (o ∷ ops) (a.0 ∷ ns) a.1
          (λ o' h. go o' (omega (arith, tree_threshold_bounds r))) lt (omega arith)
          (omega (arith, count_items_pos l))
        ∙ bind_congr (meaning ev r a.1) _ _ (λ b.
          drain-binary stop exit o ops a.0 b.0 ns b.1 u (go o (le_refl (prec o)))
            (omega (arith, count_items_pos l)))
        ∙ sym (bind_assoc (meaning ev r a.1) (λ b. ev.eval o a.0 b.0 b.1 >>= number) done))
      ∙ sym (
          bind_assoc (meaning ev l st)
            (λ a. meaning ev r a.1 >>= λ b. ev.eval o a.0 b.0 b.1 >>= number) done)
