-- ===== src/Arith/Choose.antt =====
-- The loop of arithm_expand() of src/shunt.c chooses the operators that a tree is made of.
use layla_shell.Arith.Op.{Op, lbrace, rbrace, comma, unary}
use layla_shell.Arith.Machine.{Item, Calc, Evaluator, ◌>>=◌, push_numstack, shunt_op}
use layla_shell.Arith.Run.{
  Lexeme, item, operator, LastOp, startop, null, last, takes_operand, unary_op, fix_pre_post,
  choose_op, discard_comma, loop,
}
use layla_shell.Arith.Grammar.{
  Expr, operand, binary, prefix, postfix, group, Token, op, tokens, Fits, kind, prefix_op,
  postfix_op, binary_op, spelled, written, lexemes,
}
use layla_shell.Arith.Steps.{feed, run, run-append, bind_assoc, bind_congr}
use layla_shell.Prelude.{
  ◌≡◌, refl, sym, ap, ◌∙◌, Bool, true, false, Option, some, List, [], ◌∷◌, ◌++◌, append_assoc,
  arith,
}

unfoldable pub is_comma : LastOp → Bool
is_comma (last comma) = true
is_comma _ = false

-- where an expression may begin
abbrev pub Ready : LastOp → Type 0
Ready l = (takes_operand l ≡ true) × (is_comma l ≡ false)

postfix_takes : (o : Op) → kind o ≡ postfix_op → takes_operand (last o) ≡ false
unfolding kind takes_operand
postfix_takes o h = ground arith

module _ {V : Type 0} where
  -- `lastop` behind an expression
  abbrev pub behind : Expr V → LastOp
  behind (operand i) = null
  behind (binary o l r) = behind r
  behind (prefix o e) = behind e
  behind (postfix o e) = last o
  behind (group e) = last rbrace

  pub behind_takes : (e : Expr V) → Fits e → takes_operand (behind e) ≡ false
  behind_takes (operand i) f = unfold takes_operand in refl
  behind_takes (binary o l r) f = behind_takes r f.2
  behind_takes (prefix o e) f = behind_takes e f.1
  behind_takes (postfix o e) f = postfix_takes o f.0
  behind_takes (group e) f = unfold takes_operand in refl

prefix-Ready : (o : Op) → kind o ≡ prefix_op → Ready (last o)
unfolding kind takes_operand is_comma
prefix-Ready o h = ground arith

binary-Ready : (o : Op) → kind o ≡ binary_op → Ready (last o)
unfolding kind takes_operand is_comma
binary-Ready o h = ground arith

choose-prefix :
    (o : Op) (l : LastOp)
    → kind o ≡ prefix_op
    → takes_operand l ≡ true
    → choose_op l (spelled o).0 (spelled o).1 ≡ some o
unfolding kind spelled choose_op unary_op unary fix_pre_post
choose-prefix o l k h = rw h (ground arith)

choose-postfix :
    (o : Op) (l : LastOp)
    → kind o ≡ postfix_op
    → takes_operand l ≡ false
    → choose_op l (spelled o).0 (spelled o).1 ≡ some o
unfolding kind spelled choose_op fix_pre_post
choose-postfix o l k h = rw h (ground arith)

choose-binary :
    (o : Op) (l : LastOp)
    → kind o ≡ binary_op
    → takes_operand l ≡ false
    → choose_op l (spelled o).0 (spelled o).1 ≡ some o
unfolding kind spelled choose_op fix_pre_post
choose-binary o l k h = rw h (ground arith)

choose-lbrace : (l : LastOp) → choose_op l lbrace true ≡ some lbrace
unfolding choose_op unary_op fix_pre_post
choose-lbrace l = ground arith

choose-rbrace : (l : LastOp) → takes_operand l ≡ false → choose_op l rbrace true ≡ some rbrace
unfolding choose_op fix_pre_post
choose-rbrace l h = rw h refl

lbrace-Ready : Ready (last lbrace)
lbrace-Ready = unfold takes_operand is_comma in (refl, refl)

module _ {V St : Type 0} (ev : Evaluator V St) where
  loop-operator :
      (o' o : Op) (post : Bool) (ts : List (Lexeme V)) (l : LastOp) (c : Calc V St)
      → choose_op l o' post ≡ some o
      → loop ev (operator o' post ∷ ts) l c ≡ (shunt_op ev o c >>= loop ev ts (last o))
  unfolding loop
  loop-operator o' o post ts l c h = rw h refl

  discard_none :
      (l : LastOp) (i : Item V) (c : Calc V St) → is_comma l ≡ false → discard_comma l i c ≡ some c
  unfolding discard_comma is_comma
  discard_none startop i c h = refl
  discard_none null i c h = refl
  discard_none (last comma) i c h = cc
  discard_none (last _) i c h = refl

  loop-item :
      (i : Item V) (ts : List (Lexeme V)) (l : LastOp) (c : Calc V St)
      → is_comma l ≡ false
      → loop ev (item i ∷ ts) l c ≡ (push_numstack i c >>= loop ev ts null)
  unfolding loop
  loop-item i ts l c h = rw (discard_none l i c h) refl

  -- what the loop does behind the lexemes of `e`
  abbrev Feeds : Expr V → Type 0
  Feeds e =
      (ts : List (Lexeme V)) (l : LastOp) (c : Calc V St)
      → Fits e
      → Ready l
      → loop ev (lexemes e ++ ts) l c ≡ (run ev (tokens e) c >>= loop ev ts (behind e))

  run-op :
      (s us : List (Token V)) (o : Op) (c : Calc V St) (k : Calc V St → Option (Calc V St))
      → (run ev (s ++ op o ∷ us) c >>= k)
        ≡ (run ev s c >>= λ c1. shunt_op ev o c1 >>= λ c2. run ev us c2 >>= k)
  unfolding run feed
  run-op s us o c k =
      ap (λ (x : Option (Calc V St)). x >>= k) (run-append ev s (op o ∷ us) c)
      ∙ bind_assoc (run ev s c) (λ c1. shunt_op ev o c1 >>= run ev us) k
      ∙ bind_congr (run ev s c) _ _ (λ c1. bind_assoc (shunt_op ev o c1) (run ev us) k)

  loop-after :
      (e : Expr V) (o' o : Op) (post : Bool) (ts : List (Lexeme V)) (l : LastOp) (c : Calc V St)
      → Feeds e
      → Fits e
      → Ready l
      → choose_op (behind e) o' post ≡ some o
      → loop ev (lexemes e ++ operator o' post ∷ ts) l c
        ≡ (run ev (tokens e) c >>= λ c1. shunt_op ev o c1 >>= loop ev ts (last o))
  loop-after e o' o post ts l c feeds f r h =
      feeds (operator o' post ∷ ts) l c f r
      ∙ bind_congr (run ev (tokens e) c) _ _ (λ c1. loop-operator o' o post ts (behind e) c1 h)

  -- the loop feeds the machine with the operators of a tree
  pub loop-run : (e : Expr V) → Feeds e
  unfolding run feed spelled
  loop-run (operand i) ts l c f (t, n) =
      loop-item i ts l c n ∙ sym (bind_assoc (push_numstack i c) some (loop ev ts null))
  loop-run (binary o x y) ts l c f r = rw append_assoc (
      loop-after x (spelled o).0 o (spelled o).1 (lexemes y ++ ts) l c (loop-run x) f.1 r
        (choose-binary o (behind x) f.0 (behind_takes x f.1))
      ∙ bind_congr (run ev (tokens x) c) _ _ (λ c1.
        bind_congr (shunt_op ev o c1) _ _
          (λ c2. loop-run y ts (last o) c2 f.2 (binary-Ready o f.0)))
      ∙ sym (run-op (tokens x) (tokens y) o c (loop ev ts (behind y))))
  loop-run (prefix o e) ts l c f r =
      loop-operator (spelled o).0 o (spelled o).1 (lexemes e ++ ts) l c (choose-prefix o l f.0 r.0)
      ∙ bind_congr (shunt_op ev o c) _ _ (λ c1. loop-run e ts (last o) c1 f.1 (prefix-Ready o f.0))
      ∙ sym (bind_assoc (shunt_op ev o c) (run ev (tokens e)) (loop ev ts (behind e)))
  loop-run (postfix o e) ts l c f r = rw append_assoc (
      loop-after e (spelled o).0 o (spelled o).1 ts l c (loop-run e) f.1 r
        (choose-postfix o (behind e) f.0 (behind_takes e f.1))
      ∙ sym (run-op (tokens e) [] o c (loop ev ts (last o))))
  loop-run (group e) ts l c f r =
      loop-operator lbrace lbrace true ((lexemes e ++ written rbrace ∷ []) ++ ts) l c
        (choose-lbrace l)
      ∙ bind_congr (shunt_op ev lbrace c) _ _ (λ c1.
        ap (λ (x : List (Lexeme V)). loop ev x (last lbrace) c1) (append_assoc (lexemes e) _ ts)
        ∙ loop-after e rbrace rbrace true ts (last lbrace) c1 (loop-run e) f lbrace-Ready
            (choose-rbrace (behind e) (behind_takes e f))
        ∙ sym (run-op (tokens e) [] rbrace c1 (loop ev ts (last rbrace))))
      ∙ sym (
          bind_assoc (shunt_op ev lbrace c) (run ev (tokens e ++ op rbrace ∷ []))
            (loop ev ts (last rbrace)))
