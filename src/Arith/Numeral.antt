-- ===== src/Arith/Numeral.antt =====
-- The loop over get_ndigit() in get_num() of src/shunt.c reads digits as their number.
use native.Mathlib.Nat.{div-add-mod, mul-add-mod_self_left}
use layla_shell.Arith.Op.{at}
use layla_shell.Arith.Digit.{get_ndigit-digit_char, digit_char, ends_number, get_ndigit-end}
use layla_shell.Arith.Number.{wrap, read_digits}
use layla_shell.Prelude.Bytes.{Bytes}
use layla_shell.Prelude.{
  All, ℕ, ◌+◌, ◌*◌, ◌/◌, ◌%◌, ◌^◌, ◌<◌, ◌≤◌, ◌≡◌, refl, true, some, List, [], ◌∷◌, arith, length,
  sym, ap, subst, ◌∙◌,
}

-- the number that digits stand for, the most significant first
unfoldable pub value : ℕ → List ℕ → ℕ → ℕ
value base [] num = num
value base (d ∷ ds) num = value base ds (num * base + d)

unfoldable pub numeral : List ℕ → Bytes → Bytes
numeral [] s = s
numeral (d ∷ ds) s = digit_char d ∷ numeral ds s

abbrev pub Below : ℕ → List ℕ → Type 0
Below base ds = All (λ d. d < base) ds

pub wrap_step : (num base d : ℕ) → wrap (wrap num * base + d) ≡ wrap (num * base + d)
unfolding wrap
wrap_step num base d =
    let m = 2 ^ 64 in
    let q = num / m in
    let r = num % m in
    let split : (m * q + r) * base + d ≡ m * (q * base) + (r * base + d) = omega arith in
    subst (λ x. (r * base + d) % m ≡ (x * base + d) % m) (div-add-mod num m)
      (sym (ap (λ x. x % m) split ∙ mul-add-mod_self_left m (q * base) (r * base + d)))

pub read_digits-end :
    (base num n : ℕ) (s : Bytes)
    → ends_number (at s 0) ≡ true
    → read_digits base s num n ≡ some (record { num = num; count = n; rest = s })
unfolding read_digits at
read_digits-end base num n [] h = refl
read_digits-end base num n (c ∷ s) h = rw (read_digits, get_ndigit-end c base h) refl

pub read_digits-numeral :
    (base : ℕ) (ds : List ℕ) (s : Bytes) (num n : ℕ)
    → 2 ≤ base
    → base ≤ 64
    → Below base ds
    → ends_number (at s 0) ≡ true
    → read_digits base (numeral ds s) (wrap num) n
      ≡ some (record { num = wrap (value base ds num); count = n + length ds; rest = s })
unfolding read_digits numeral value
read_digits-numeral base [] s num n lo hi below end =
    let count_eq : n + 0 ≡ n = omega arith in rw count_eq (read_digits-end base (wrap num) n s end)
read_digits-numeral base (d ∷ ds) s num n lo hi below end =
    let count_eq : n + length (d ∷ ds) ≡ n + 1 + length ds = omega arith in
    rw (read_digits, get_ndigit-digit_char base d lo hi below.0, wrap_step num base d, count_eq)
      (read_digits-numeral base ds s (num * base + d) (n + 1) lo hi below.1 end)

pub read_numeral :
    (base : ℕ) (ds : List ℕ) (s : Bytes) (n : ℕ)
    → 2 ≤ base
    → base ≤ 64
    → Below base ds
    → ends_number (at s 0) ≡ true
    → read_digits base (numeral ds s) 0 n
      ≡ some (record { num = wrap (value base ds 0); count = n + length ds; rest = s })
unfolding wrap
read_numeral base ds s n lo hi below end = read_digits-numeral base ds s 0 n lo hi below end
