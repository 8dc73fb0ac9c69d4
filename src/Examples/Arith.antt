-- ===== src/Examples/Arith.antt =====
-- Inputs for src/shunt.c. The evaluator is one of plain numbers, with the operators they need; the
-- state counts how often it was called.
use layla_shell.Arith.Op.{
  Op, assign_lsh, add, mult, sub, exp, unary, assoc, prec, get_op, op_of, at,
}
use layla_shell.Arith.Machine.{
  Item, long_int, var_ptr, Evaluator, ◌>>=◌, threshold, is_lbrace, push_opstack, push_numstack,
  apply_op, apply_unary, apply_binary, pop_loop, close_loop, pop_lbrace, shunt_op, flush_loop,
  finish, take_result,
}
use layla_shell.Arith.Grammar.{Expr, operand, binary, group, kind, spelled, lexemes, meaning}
use layla_shell.Arith.Run.{
  takes_operand, unary_op, fix_pre_post, choose_op, discard_comma, loop, evaluate,
}
use layla_shell.Arith.Munch.{IsLongest, get_op-IsLongest}
use layla_shell.Arith.Evaluate.{evaluate-lexemes}
use layla_shell.Arith.Digit.{
  get_ndigit, is_alnum, is_digit, between, letters, letters_either_case, last_digits, digit_char,
}
use layla_shell.Arith.Number.{
  get_num, wrap, isspace, read_digits, in_base, check_end, after_base, base_or_num, decimal_or_base,
  ends_zero, skip_one, skip_two,
}
use layla_shell.Arith.Numeral.{value, numeral}
use layla_shell.Arith.Literal.{based, written, get_num-numeral}
use layla_shell.Prelude.Bytes.{codes}
use layla_shell.Prelude.{ℕ, ◌+◌, ◌-◌, ◌*◌, ◌^◌, ◌≡◌, refl, Option, none, some, [], ◌∷◌, arith}

program : Unit {0}
unfolding get_op op_of at unary assoc prec threshold is_lbrace push_opstack push_numstack apply_op
    apply_unary apply_binary pop_loop close_loop pop_lbrace shunt_op flush_loop finish take_result
    kind spelled meaning takes_operand unary_op fix_pre_post choose_op discard_comma loop evaluate
    get_ndigit is_alnum is_digit between letters letters_either_case last_digits digit_char get_num
    wrap isspace read_digits in_base check_end after_base base_or_num decimal_or_base ends_zero
    skip_one skip_two value numeral
program = tt

abbrev number : Item ℕ → ℕ
number (long_int n) = n
number (var_ptr v) = 0

abbrev calculate : Op → ℕ → ℕ → Option ℕ
calculate add a b = some (a + b)
calculate mult a b = some (a * b)
calculate sub a b = some (a - b)
calculate exp a b = some (a ^ b)
calculate _ a b = none

abbrev plain : Evaluator ℕ ℕ
plain = record { eval = λ o a b st. calculate o (number a) (number b) >>= λ n. some (n, st + 1) }

abbrev lit : ℕ → Expr ℕ
lit n = operand (long_int n)

-- 1 + 2 * 3 ** 2
abbrev sum : Expr ℕ
sum = binary add (lit 1) (binary mult (lit 2) (binary exp (lit 3) (lit 2)))

-- (1 + 2) * 3 - 4 - 5
abbrev differences : Expr ℕ
differences =
    binary sub (binary sub (binary mult (group (binary add (lit 1) (lit 2))) (lit 3)) (lit 4))
      (lit 5)

evaluate-sum : evaluate plain (lexemes sum) 0 ≡ some (some (long_int 19), 3)
unfolding program
evaluate-sum = refl

evaluate-differences : evaluate plain (lexemes differences) 0 ≡ some (some (long_int 0), 4)
unfolding program
evaluate-differences = refl

evaluate-lexemes_example :
    evaluate plain (lexemes sum) 0 ≡ (meaning plain sum 0 >>= λ r. some (some r.0, r.1))
unfolding program
evaluate-lexemes_example = evaluate-lexemes plain sum 0 (ground arith) (omega arith) (omega arith)

get_op_longest : get_op (codes "<<=1") ≡ some assign_lsh
unfolding program
get_op_longest = refl

get_num_tests :
    (get_num (codes "0x1F+1") ≡ some (31, 4))
    × (get_num (codes "017") ≡ some (15, 3))
    × (get_num (codes "0+1") ≡ some (0, 1))
    × (get_num (codes "0<1") ≡ none)
    × (get_num (codes "16#ff") ≡ some (255, 5))
    × (get_num (codes "65#1") ≡ none)
    × (get_num (codes "5a") ≡ none)
unfolding program
get_num_tests = (refl, refl, refl, refl, refl, refl, refl)

get_num-numeral_example :
    get_num (written (based (1 ∷ 6 ∷ []) (15 ∷ 15 ∷ [])) [])
    ≡ some (wrap (value (value 10 (1 ∷ 6 ∷ []) 0) (15 ∷ 15 ∷ []) 0), 2 + 1 + 2)
unfolding program
get_num-numeral_example = get_num-numeral (based (1 ∷ 6 ∷ []) (15 ∷ 15 ∷ [])) [] (ground arith) refl

get_op-IsLongest_example : IsLongest (codes "<<=1") (some assign_lsh)
unfolding get_op op_of at
get_op-IsLongest_example = get_op-IsLongest (codes "<<=1")
