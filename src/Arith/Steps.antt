-- ===== src/Arith/Steps.antt =====
-- Single steps of the machine of src/shunt.c.
use layla_shell.Arith.Op.{Op, lbrace, rbrace, comma, prec, unary}
use layla_shell.Arith.Machine.{
  Item, long_int, Calc, Evaluator, ◌>>=◌, push_opstack, push_numstack, apply_unary, apply_binary,
  apply_op, threshold, shunt_op,
}
use layla_shell.Arith.Drain.{drain, drain_stop, pop_loop-drain}
use layla_shell.Arith.Grammar.{
  Expr, operand, binary, prefix, postfix, group, Token, item, op, tree_prec, tree_threshold, Fits,
  count_items, Kind, kind, binary_op, prefix_op, postfix_op, brace,
}
use layla_shell.Prelude.{
  ℕ, ◌+◌, ◌<◌, ◌≤◌, ◌≡◌, ◌≢◌, refl, Bool, true, false, not, Option, none, some, List, [], ◌∷◌, ◌++◌,
  arith, leb, length, sym, ◌∙◌,
}

abbrev pub Below : List Op → ℕ → Type 0
Below [] t = Unit
Below (top ∷ ops) t = prec top < t

abbrev pub below_threshold : Op → Op → Bool
below_threshold o p = not (leb (threshold o) (prec p))

pub Below-mono : (ops : List Op) (s t : ℕ) → Below ops s → s ≤ t → Below ops t
Below-mono [] s t h le = tt
Below-mono (top ∷ ops) s t h le = omega arith

pub bind_assoc :
    {A B C : Type 0} (m : Option A) (f : A → Option B) (g : B → Option C)
    → ((m >>= f) >>= g) ≡ (m >>= λ a. f a >>= g)
bind_assoc none f g = refl
bind_assoc (some a) f g = refl

pub bind_some : {A : Type 0} (m : Option A) → (m >>= some) ≡ m
bind_some none = refl
bind_some (some a) = refl

pub bind_congr :
    {A B : Type 0} (m : Option A) (f g : A → Option B)
    → ((a : A) → f a ≡ g a)
    → (m >>= f) ≡ (m >>= g)
bind_congr none f g h = refl
bind_congr (some a) f g h = h a

module _ {V St : Type 0} where
  abbrev pub calc : List Op → List (Item V) → St → Calc V St
  calc ops ns st = record { opstack = ops; numstack = ns; vars = st }

  pub push_numstack-room :
      (i : Item V) (ops : List Op) (ns : List (Item V)) (st : St)
      → length ns < 64
      → push_numstack i (calc ops ns st) ≡ some (calc ops (i ∷ ns) st)
  unfolding push_numstack
  push_numstack-room i ops ns st h = ground arith

  pub push_opstack-room :
      (o : Op) (ops : List Op) (ns : List (Item V)) (st : St)
      → length ops < 64
      → push_opstack o (calc ops ns st) ≡ some (calc (o ∷ ops) ns st)
  unfolding push_opstack
  push_opstack-room o ops ns st h = ground arith

module _ {V St : Type 0} (ev : Evaluator V St) where
  -- the machine, fed with operators that are chosen already
  unfoldable pub feed : Token V → Calc V St → Option (Calc V St)
  feed (item i) c = push_numstack i c
  feed (op o) c = shunt_op ev o c

  unfoldable pub run : List (Token V) → Calc V St → Option (Calc V St)
  run [] c = some c
  run (t ∷ ts) c = feed t c >>= run ts

  pub run-append : (s t : List (Token V)) (c : Calc V St) → run (s ++ t) c ≡ (run s c >>= run t)
  unfolding run
  run-append [] t c = refl
  run-append (x ∷ s) t c =
      bind_congr (feed x c) (run (s ++ t)) (λ c1. run s c1 >>= run t) (run-append s t)
      ∙ sym (bind_assoc (feed x c) (run s) (run t))

  -- all that is left on the stack is popped, until `stop`
  abbrev pub settle :
      (Op → Bool) → (Calc V St → Option (Calc V St)) → Calc V St → Option (Calc V St)
  settle stop exit c = drain ev stop exit c.opstack c

  pub shunt_op-settle :
      (o : Op) (c : Calc V St)
      → 1 ≤ prec o
      → shunt_op ev o c ≡ (settle (below_threshold o) some c >>= push_opstack o)
  unfolding shunt_op prec
  shunt_op-settle lbrace c h = absurd (omega arith)
  shunt_op-settle rbrace c h = absurd (omega arith)
  shunt_op-settle comma c h = absurd (omega arith)
  shunt_op-settle o c h = rw pop_loop-drain

  pub apply_op-unary :
      (o : Op) (a : Item V) (ops : List Op) (ns : List (Item V)) (st : St)
      → unary o ≡ true
      → length ns < 64
      → apply_op ev o (calc ops (a ∷ ns) st)
        ≡ (ev.eval o a (long_int 0) st >>= λ r. some (calc ops (long_int r.0 ∷ ns) r.1))
  unfolding apply_op apply_unary
  apply_op-unary o a ops ns st u h = rw u (
      bind_congr (ev.eval o a (long_int 0) st) _ _
        (λ r. push_numstack-room (long_int r.0) ops ns r.1 h))

  pub apply_op-binary :
      (o : Op) (a b : Item V) (ops : List Op) (ns : List (Item V)) (st : St)
      → unary o ≡ false
      → length ns < 64
      → apply_op ev o (calc ops (b ∷ a ∷ ns) st)
        ≡ (ev.eval o a b st >>= λ r. some (calc ops (long_int r.0 ∷ ns) r.1))
  unfolding apply_op apply_binary
  apply_op-binary o a b ops ns st u h =
      rw u (bind_congr (ev.eval o a b st) _ _ (λ r. push_numstack-room (long_int r.0) ops ns r.1 h))

  -- nothing is popped for an operator that binds more tightly than the one on top
  pub settle-Below :
      (o : Op) (ops : List Op) (ns : List (Item V)) (st : St)
      → Below ops (threshold o)
      → settle (below_threshold o) some (calc ops ns st) ≡ some (calc ops ns st)
  settle-Below o [] ns st h = unfold drain in refl
  settle-Below o (top ∷ ops) ns st h =
      drain_stop ev (below_threshold o) some top ops (calc (top ∷ ops) ns st) (ground arith)

pub threshold_bounds : (o : Op) → (prec o ≤ threshold o) × (threshold o ≤ prec o + 1)
unfolding threshold
threshold_bounds o = ground arith

pub kind-prec : (o : Op) (k : Kind) → k ≢ brace → kind o ≡ k → 1 ≤ prec o
unfolding kind prec
kind-prec lbrace k ne h = absurd (ne (sym h))
kind-prec rbrace k ne h = absurd (ne (sym h))
kind-prec comma k ne h = absurd (ne (sym h))
kind-prec _ k ne h = omega arith

pub binary_prec : (o : Op) → kind o ≡ binary_op → 1 ≤ prec o
binary_prec o h = kind-prec o binary_op (λ e. cc) h

pub prefix_prec : (o : Op) → kind o ≡ prefix_op → 1 ≤ prec o
prefix_prec o h = kind-prec o prefix_op (λ e. cc) h

pub postfix_prec : (o : Op) → kind o ≡ postfix_op → 1 ≤ prec o
postfix_prec o h = kind-prec o postfix_op (λ e. cc) h

pub binary-unary : (o : Op) → kind o ≡ binary_op → unary o ≡ false
unfolding kind unary
binary-unary o h = ground arith

pub prefix-unary : (o : Op) → kind o ≡ prefix_op → unary o ≡ true
unfolding kind unary
prefix-unary o h = ground arith

pub postfix-unary : (o : Op) → kind o ≡ postfix_op → unary o ≡ true
unfolding kind unary
postfix-unary o h = ground arith

module _ {V : Type 0} where
  pub tree_threshold_bounds :
      (e : Expr V) → (tree_prec e ≤ tree_threshold e) × (tree_threshold e ≤ tree_prec e + 1)
  tree_threshold_bounds (operand i) = omega arith
  tree_threshold_bounds (binary o l r) = threshold_bounds o
  tree_threshold_bounds (prefix o e) = threshold_bounds o
  tree_threshold_bounds (postfix o e) = threshold_bounds o
  tree_threshold_bounds (group e) = omega arith

  pub tree_prec_pos : (e : Expr V) → Fits e → 1 ≤ tree_prec e
  tree_prec_pos (operand i) h = omega arith
  tree_prec_pos (binary o l r) h = binary_prec o h.0
  tree_prec_pos (prefix o e) h = prefix_prec o h.0
  tree_prec_pos (postfix o e) h = postfix_prec o h.0
  tree_prec_pos (group e) h = omega arith

  pub count_items_pos : (e : Expr V) → 1 ≤ count_items e
  count_items_pos (operand i) = omega arith
  count_items_pos (binary o l r) = omega (arith, count_items_pos l)
  count_items_pos (prefix o e) = count_items_pos e
  count_items_pos (postfix o e) = count_items_pos e
  count_items_pos (group e) = count_items_pos e
