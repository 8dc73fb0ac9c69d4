-- ===== src/Arith/Word.antt =====
-- The operators of src/shunt.c on 64-bit numbers. A C long is its bit pattern, a number below 2^64;
-- signed arithmetic wraps around, as it does where the compiler does not exploit that C leaves its
-- overflow undefined, and a shift uses the low six bits of its count, as x86-64 does.
use layla_shell.Prelude.{
  ℕ, zero, suc, ◌+◌, ◌-◌, ◌*◌, ◌/◌, ◌%◌, ◌^◌, Bool, true, false, not, ◌&&◌, ◌||◌, ltb, leb, ◌==◌,
  if◌then◌else◌,
}
use layla_shell.Arith.Number.{wrap}

abbrev pub modulus : ℕ
modulus = 2 ^ 64

abbrev pub half : ℕ
half = 2 ^ 63

unfoldable pub is_negative : ℕ → Bool
is_negative a = leb half a

unfoldable pub of_bool : Bool → ℕ
of_bool b = if b then 1 else 0

unfoldable pub uminus_long : ℕ → ℕ
uminus_long a = wrap (modulus - a)

unfoldable pub lognot_long : ℕ → ℕ
lognot_long a = of_bool (a == 0)

unfoldable pub bitnot_long : ℕ → ℕ
bitnot_long a = modulus - 1 - a

unfoldable pub mult_long : ℕ → ℕ → ℕ
mult_long a b = wrap (a * b)

unfoldable pub add_long : ℕ → ℕ → ℕ
add_long a b = wrap (a + b)

unfoldable pub sub_long : ℕ → ℕ → ℕ
sub_long a b = wrap (a + modulus - b)

unfoldable pub lsh_long : ℕ → ℕ → ℕ
lsh_long a b = wrap (a * 2 ^ (b % 64))

-- an arithmetic shift: the sign is copied into the high bits
unfoldable pub rsh_long : ℕ → ℕ → ℕ
rsh_long a b =
    let k = 2 ^ (b % 64) in if is_negative a then a / k + (modulus - modulus / k) else a / k

-- the signed order
unfoldable pub slt : ℕ → ℕ → Bool
slt a b =
    if is_negative a
    then (if is_negative b then ltb a b else true)
    else if is_negative b
    then false
    else ltb a b

unfoldable pub lt_long : ℕ → ℕ → ℕ
lt_long a b = of_bool (slt a b)

unfoldable pub le_long : ℕ → ℕ → ℕ
le_long a b = of_bool (not (slt b a))

unfoldable pub gt_long : ℕ → ℕ → ℕ
gt_long a b = of_bool (slt b a)

unfoldable pub ge_long : ℕ → ℕ → ℕ
ge_long a b = of_bool (not (slt a b))

unfoldable pub eq_long : ℕ → ℕ → ℕ
eq_long a b = of_bool (a == b)

unfoldable pub ne_long : ℕ → ℕ → ℕ
ne_long a b = of_bool (not (a == b))

-- bit by bit, from the lowest
unfoldable pub bitwise : (Bool → Bool → Bool) → ℕ → ℕ → ℕ → ℕ
bitwise f zero a b = 0
bitwise f (suc w) a b = of_bool (f (a % 2 == 1) (b % 2 == 1)) + 2 * bitwise f w (a / 2) (b / 2)

unfoldable pub xor : Bool → Bool → Bool
xor a b = if a then not b else b

unfoldable pub bitand_long : ℕ → ℕ → ℕ
bitand_long a b = bitwise (λ x y. x && y) 64 a b

unfoldable pub bitxor_long : ℕ → ℕ → ℕ
bitxor_long a b = bitwise xor 64 a b

unfoldable pub bitor_long : ℕ → ℕ → ℕ
bitor_long a b = bitwise (λ x y. x || y) 64 a b

unfoldable pub logand_long : ℕ → ℕ → ℕ
logand_long a b = of_bool (not (a == 0) && not (b == 0))

unfoldable pub logor_long : ℕ → ℕ → ℕ
logor_long a b = of_bool (not (a == 0) || not (b == 0))

-- the recursion of do_eval_exp(), for an exponent that is not negative
unfoldable pub power : ℕ → ℕ → ℕ
power a zero = 1
power a (suc n) = mult_long a (power a n)

unfoldable pub do_eval_exp : ℕ → ℕ → ℕ
do_eval_exp a b = if is_negative b then 0 else power a b

unfoldable pub magnitude : ℕ → ℕ
magnitude a = if is_negative a then modulus - a else a

-- the quotient and the remainder of signed numbers, towards zero, for a divisor that is not 0
unfoldable pub quotient : ℕ → ℕ → ℕ
quotient a b =
    let q = magnitude a / magnitude b in
    if is_negative a
    then (if is_negative b then wrap q else uminus_long q)
    else if is_negative b
    then uminus_long q
    else wrap q

unfoldable pub remainder : ℕ → ℕ → ℕ
remainder a b = let r = magnitude a % magnitude b in if is_negative a then uminus_long r else r
