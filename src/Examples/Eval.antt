-- ===== src/Examples/Eval.antt =====
-- Inputs for the operators of src/shunt.c, with hooks that do nothing.
use layla_shell.Arith.Op.{assign_div}
use layla_shell.Arith.Machine.{long_int, var_ptr}
use layla_shell.Arith.Word.{
  modulus, is_negative, of_bool, uminus_long, add_long, sub_long, rsh_long, slt, lt_long, le_long,
  gt_long, ge_long, power, do_eval_exp, mult_long, quotient, remainder, magnitude, bitand_long,
  bitwise,
}
use layla_shell.Arith.Number.{wrap, isspace}
use layla_shell.Arith.Digit.{is_digit, between}
use layla_shell.Arith.Op.{at}
use layla_shell.Arith.Text.{
  strtol, print_long, print_digits, skip_spaces, read_sign, scan_digits, clamp,
}
use layla_shell.Arith.Eval.{
  State, raise, long_value, item_value, val_value, text_value, eval_divide, adopt, assign_var,
  eval_assign_val, eval_assign_ext, eval,
}
use layla_shell.Arith.Assign.{eval_assign_val-long_value}
use layla_shell.Arith.Readonly.{eval-Keeps}
use layla_shell.Arith.Plain.{IsPlain}
use layla_shell.Arith.Signed.{signed, minus, long_sum, int_sum, signed_sums}
use layla_shell.Arith.Division.{of_sign, division_lem}
use layla_shell.Symtab.Entry.{Flags, bit, Vars, Hooks, clear, update, tell_special}
use layla_shell.Symtab.Keeps.{Keeps}
use layla_shell.Prelude.Int.{◌+ℤ◌, ◌-ℤ◌, ◌*ℤ◌}
use layla_shell.Prelude.Bytes.{codes}
use layla_shell.Prelude.{
  ◌<◌, ◌≤◌, ◌+◌, length, inr, ℕ, ◌-◌, ◌%◌, ◌≡◌, ◌≢◌, refl, false, none, some, ◌==◌, ◌&&◌, arith,
  if◌then◌else◌,
}

program : Unit {0}
unfolding is_negative of_bool uminus_long add_long sub_long rsh_long slt lt_long le_long gt_long
    ge_long power do_eval_exp mult_long quotient remainder magnitude bitand_long bitwise wrap
    isspace is_digit between at strtol print_long print_digits skip_spaces read_sign scan_digits
    clamp raise long_value item_value val_value text_value eval_divide adopt assign_var
    eval_assign_val eval_assign_ext eval clear update tell_special signed ◌+ℤ◌ ◌-ℤ◌
program = tt

abbrev quiet : Hooks
quiet = record { set_special_var = λ name v vars. vars; arithm_expand = λ text vars. (none, vars) }

abbrev flags_of : ℕ → Flags
flags_of a f = a == 1 && bit f == 1

-- `x` at address 0 is 7, and `r` at address 1 is the read-only 5
abbrev two_vars : Vars
two_vars a =
    if a == 0
    then record { name = codes "x"; val = some (codes "7"); flags = flags_of 0 }
    else record { name = codes "r"; val = some (codes "5"); flags = flags_of 1 }

abbrev start : State
start = record { error = false; vars = two_vars; overrun = false }

print_tests :
    (print_long 0 ≡ codes "0")
    × (print_long 1230 ≡ codes "1230")
    × (print_long (modulus - 12) ≡ codes "-12")
    × (strtol (codes " -12x") ≡ (modulus - 12, codes "x"))
    × (strtol (codes "abc") ≡ (0, codes "abc"))
unfolding program
print_tests = (refl, refl, refl, refl, refl)

word_tests :
    (rsh_long (modulus - 5) 1 ≡ modulus - 3)
    × (quotient (modulus - 7) 2 ≡ modulus - 3)
    × (remainder (modulus - 7) 2 ≡ modulus - 1)
    × (bitand_long 12 10 ≡ 8)
unfolding program
word_tests = (refl, refl, refl, refl)

-- x /= 0 fails, and sets x to 0
divide_tests :
    let r = eval quiet assign_div (var_ptr 0) (long_int 0) start in
    (r.0 ≡ 0) × ((r.1.vars 0).val ≡ some (codes "0"))
unfolding program
divide_tests = (refl, refl)

twelve_fits : length (print_long 12) + 1 ≤ 16
unfolding program
twelve_fits = omega arith

eval_assign_val-long_value_example :
    let r = eval_assign_val quiet (var_ptr 0) 12 start in
    (r.0 ≡ 12)
    × (r.1.overrun ≡ false)
    × (long_value quiet (var_ptr 0) r.1 ≡ (12, r.1))
    × ((b : ℕ) → 0 ≢ b → r.1.vars b ≡ two_vars b)
eval_assign_val-long_value_example =
    eval_assign_val-long_value quiet 0 12 start refl refl refl (omega arith) twelve_fits

two_vars-IsPlain : IsPlain two_vars (var_ptr 0) × IsPlain two_vars (var_ptr 1)
unfolding IsPlain program
two_vars-IsPlain = ((refl, refl, refl), (refl, refl, refl))

divide_fits : (eval quiet assign_div (var_ptr 0) (var_ptr 1) start).1.overrun ≡ false
unfolding program
divide_fits = refl

eval-Keeps_example : Keeps two_vars (eval quiet assign_div (var_ptr 0) (var_ptr 1) start).1.vars
eval-Keeps_example =
    eval-Keeps quiet assign_div (var_ptr 0) (var_ptr 1) start two_vars-IsPlain.0 two_vars-IsPlain.1
      divide_fits

signed_sums_example :
    signed (long_sum minus (modulus - 5) 7) ≡ int_sum minus (signed (modulus - 5)) (signed 7)
unfolding int_sum signed is_negative ◌-ℤ◌
signed_sums_example =
    signed_sums minus (modulus - 5) 7 (omega arith) (omega arith) (omega arith, omega arith)

division_lem_example :
    let a = modulus - 7 in
    (signed a ≡ signed (quotient a 2) *ℤ signed 2 +ℤ signed (remainder a 2))
    × (signed (remainder a 2) ≡ of_sign (is_negative a) (magnitude a % magnitude 2))
    × (magnitude a % magnitude 2 < magnitude 2)
division_lem_example =
    division_lem (modulus - 7) 2 (omega arith) (omega arith) (omega arith) (inr (λ e. omega arith))
