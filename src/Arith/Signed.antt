-- ===== src/Arith/Signed.antt =====
-- The arithmetic of src/shunt.c on 64-bit numbers against the integers.
use native.Mathlib.Nat.{pow-zero, pow-suc}
use layla_shell.Arith.Number.{wrap}
use layla_shell.Arith.Numeral.{wrap_step}
use layla_shell.Arith.Word.{
  modulus, half, is_negative, of_bool, uminus_long, mult_long, add_long, sub_long, slt, lt_long,
  le_long, gt_long, ge_long, power, do_eval_exp,
}
use layla_shell.Prelude.Int.{ℤ, pos, negsuc, pos_part, neg_part, ◌+ℤ◌, ◌-ℤ◌, ltb_ℤ}
use layla_shell.Prelude.{
  ℕ, zero, suc, ◌+◌, ◌-◌, ◌*◌, ◌%◌, ◌^◌, ◌≤◌, ◌<◌, ◌≡◌, refl, not, arith, if◌then◌else◌, sym, ap,
  ◌∙◌,
}

-- the integer that a bit pattern stands for
unfoldable pub signed : ℕ → ℤ
signed n = if is_negative n then negsuc (modulus - n - 1) else pos n

-- the integers that a long holds
abbrev pub InRange : ℤ → Type 0
InRange z = (pos_part z < half) × (neg_part z ≤ half)

signed-add :
    (a b : ℕ)
    → a < modulus
    → b < modulus
    → InRange (signed a +ℤ signed b)
    → signed (add_long a b) ≡ signed a +ℤ signed b
unfolding signed add_long is_negative wrap ◌+ℤ◌
signed-add a b ha hb r = ground arith

signed-sub :
    (a b : ℕ)
    → a < modulus
    → b < modulus
    → InRange (signed a -ℤ signed b)
    → signed (sub_long a b) ≡ signed a -ℤ signed b
unfolding signed sub_long is_negative wrap ◌-ℤ◌
signed-sub a b ha hb r = ground arith

signed-uminus :
    (a : ℕ) → a < modulus → InRange (pos 0 -ℤ signed a) → signed (uminus_long a) ≡ pos 0 -ℤ signed a
unfolding signed uminus_long is_negative wrap ◌-ℤ◌
signed-uminus a ha r = ground arith

signed-slt : (a b : ℕ) → a < modulus → b < modulus → slt a b ≡ ltb_ℤ (signed a) (signed b)
unfolding signed slt is_negative
signed-slt a b ha hb = ground arith

-- the three operators, on longs and on the integers; unary `-` does not read the second operand
pub data Sum : Type 0 where
  plus minus negate : Sum

unfoldable pub long_sum : Sum → ℕ → ℕ → ℕ
long_sum plus a b = add_long a b
long_sum minus a b = sub_long a b
long_sum negate a b = uminus_long a

unfoldable pub int_sum : Sum → ℤ → ℤ → ℤ
int_sum plus x y = x +ℤ y
int_sum minus x y = x -ℤ y
int_sum negate x y = pos 0 -ℤ x

-- Each of `+`, `-` and unary `-` on longs is that of the integers wherever its own result fits a long.
pub signed_sums :
    (o : Sum) (a b : ℕ)
    → a < modulus
    → b < modulus
    → InRange (int_sum o (signed a) (signed b))
    → signed (long_sum o a b) ≡ int_sum o (signed a) (signed b)
unfolding long_sum int_sum
signed_sums plus a b ha hb r = signed-add a b ha hb r
signed_sums minus a b ha hb r = signed-sub a b ha hb r
signed_sums negate a b ha hb r = signed-uminus a ha r

-- The comparisons on longs answer 1 exactly where the integers compare so, and 0 elsewhere.
pub signed_order :
    (a b : ℕ)
    → a < modulus
    → b < modulus
    → let x = signed a in
      let y = signed b in
      (lt_long a b ≡ of_bool (ltb_ℤ x y))
      × (gt_long a b ≡ of_bool (ltb_ℤ y x))
      × (le_long a b ≡ of_bool (not (ltb_ℤ y x)))
      × (ge_long a b ≡ of_bool (not (ltb_ℤ x y)))
unfolding lt_long gt_long le_long ge_long
signed_order a b ha hb =
    let ab = signed-slt a b ha hb in
    let ba = signed-slt b a hb ha in rw (ab, ba) (refl, refl, refl, refl)

power-wrap : (a n : ℕ) → power a n ≡ wrap (a ^ n)
unfolding power mult_long
power-wrap a zero = unfold wrap in ap (λ x. x % modulus) (sym (pow-zero a))
power-wrap a (suc n) =
    let shape : a * wrap (a ^ n) ≡ wrap (a ^ n) * a + 0 = omega arith in
    let shape' : a ^ n * a + 0 ≡ a ^ suc n = omega (arith, pow-suc a n) in
    ap (λ x. wrap (a * x)) (power-wrap a n) ∙ ap wrap shape ∙ wrap_step (a ^ n) a 0 ∙ ap wrap shape'

-- `**` on longs is the power, modulo 2^64, for an exponent that is not negative, and 0 for one that is.
pub do_eval_exp-power : (a b : ℕ) → do_eval_exp a b ≡ (if is_negative b then 0 else a ^ b % modulus)
unfolding do_eval_exp wrap
do_eval_exp-power a b = rw (power-wrap a b) refl
