-- ===== src/Arith/Literal.antt =====
-- What get_num() of src/shunt.c makes of the numerals that it knows.
use layla_shell.Arith.Op.{at}
use layla_shell.Arith.Digit.{is_alnum, digit_char, ends_number, is_digit, between}
use layla_shell.Arith.Number.{
  wrap, isspace, Scan, in_base, check_end, after_base, base_or_num, decimal_or_base, get_num,
  skip_one, skip_two,
}
use layla_shell.Arith.Numeral.{value, numeral, Below, read_numeral}
use layla_shell.Prelude.Bytes.{Bytes}
use layla_shell.Prelude.{
  ℕ, ◌+◌, ◌≤◌, ◌<◌, ◌≡◌, refl, true, false, ◌||◌, some, List, [], ◌∷◌, arith, ltb, ◌==◌, length,
  ◌∙◌,
}

-- the ways a number is written: `decimal`, `0x`, `0b`, `0` in front of octal digits, and `base#`, the
-- base in decimal digits
pub data Numeral : Type 0 where
  decimal hex binary octal : List ℕ → Numeral
  based : List ℕ → List ℕ → Numeral

abbrev pub radix : Numeral → ℕ
radix (decimal ds) = 10
radix (hex ds) = 16
radix (binary ds) = 2
radix (octal ds) = 8
radix (based bs ds) = value 10 bs 0

abbrev pub digits : Numeral → List ℕ
digits (decimal ds) = ds
digits (hex ds) = ds
digits (binary ds) = ds
digits (octal ds) = ds
digits (based bs ds) = ds

abbrev pub front : Numeral → ℕ
front (decimal ds) = 0
front (hex ds) = 2
front (binary ds) = 2
front (octal ds) = 1
front (based bs ds) = length bs + 1

abbrev pub written : Numeral → Bytes → Bytes
written (decimal ds) s = numeral ds s
written (hex ds) s = b'0' ∷ b'x' ∷ numeral ds s
written (binary ds) s = b'0' ∷ b'b' ∷ numeral ds s
written (octal ds) s = b'0' ∷ numeral ds s
written (based bs ds) s = numeral bs (b'#' ∷ numeral ds s)

-- no leading zero, and so not the empty numeral
abbrev pub Leads : List ℕ → Type 0
Leads [] = ⊥
Leads (d ∷ ds) = 1 ≤ d

abbrev pub NonEmpty : List ℕ → Type 0
NonEmpty [] = ⊥
NonEmpty (d ∷ ds) = Unit

-- a decimal numeral is not followed by `#`, and a numeral with its base only by a space
abbrev pub Fits : Numeral → ℕ → Type 0
Fits (decimal ds) c = Leads ds × Below 10 ds × ((c == b'#') ≡ false)
Fits (hex ds) c = Below 16 ds
Fits (binary ds) c = Below 2 ds
Fits (octal ds) c = NonEmpty ds × Below 8 ds
Fits (based bs ds) c =
    Leads bs
    × Below 10 bs
    × (2 ≤ value 10 bs 0)
    × (value 10 bs 0 ≤ 64)
    × Below (value 10 bs 0) ds
    × ((c == 0 || isspace c) ≡ true)

in_base-numeral :
    (base : ℕ) (ds : List ℕ) (s : Bytes) (n : ℕ)
    → 2 ≤ base
    → base ≤ 64
    → Below base ds
    → ends_number (at s 0) ≡ true
    → in_base base (numeral ds s) n ≡ some (wrap (value base ds 0), n + length ds)
unfolding in_base wrap
in_base-numeral base ds s n lo hi below end = rw (read_numeral base ds s n lo hi below end) refl

Leads-decimal :
    (ds : List ℕ) (s : Bytes)
    → Leads ds
    → Below 10 ds
    → get_num (numeral ds s) ≡ decimal_or_base (numeral ds s)
unfolding get_num numeral at digit_char
Leads-decimal [] s lead below = absurd lead
Leads-decimal (d ∷ ds) s lead below = ground arith

octal-digit :
    (d : ℕ) (s : Bytes) → d < 8 → get_num (b'0' ∷ digit_char d ∷ s) ≡ in_base 8 (digit_char d ∷ s) 1
unfolding get_num at digit_char is_digit between skip_one
octal-digit d s lt = ground arith

octal-numeral :
    (ds : List ℕ) (s : Bytes)
    → NonEmpty ds
    → Below 8 ds
    → get_num (b'0' ∷ numeral ds s) ≡ in_base 8 (numeral ds s) 1
unfolding numeral
octal-numeral [] s ne below = absurd ne
octal-numeral (d ∷ ds) s ne below = octal-digit d (numeral ds s) below.0

not_based :
    (num n : ℕ) (s : Bytes)
    → (at s 0 == b'#') ≡ false
    → base_or_num (record { num = num; count = n; rest = s }) s ≡ some (num, n)
unfolding base_or_num at
not_based num n [] h = refl
not_based num n (c ∷ s) h = rw h refl

decimal-numeral :
    (ds : List ℕ) (s : Bytes)
    → Below 10 ds
    → (at s 0 == b'#') ≡ false
    → ends_number (at s 0) ≡ true
    → decimal_or_base (numeral ds s) ≡ some (wrap (value 10 ds 0), length ds)
unfolding decimal_or_base
decimal-numeral ds s below h end =
    let count_eq : 0 + length ds ≡ length ds = omega arith in
    rw (read_numeral 10 ds s 0 (omega arith) (omega arith) below end, count_eq)
      (not_based (wrap (value 10 ds 0)) (length ds) s h)

wrap_base : (n : ℕ) → n ≤ 64 → wrap n ≡ n
unfolding wrap
wrap_base n h = omega arith

check_end-space :
    (r : Scan)
    → (at r.rest 0 == 0 || isspace (at r.rest 0)) ≡ true
    → check_end r ≡ some (r.num, r.count)
unfolding check_end
check_end-space r h = ground arith

after_base-numeral :
    (base : ℕ) (ds : List ℕ) (s : Bytes) (n : ℕ)
    → 2 ≤ base
    → base ≤ 64
    → Below base ds
    → ends_number (at s 0) ≡ true
    → (at s 0 == 0 || isspace (at s 0)) ≡ true
    → after_base base (numeral ds s) n ≡ some (wrap (value base ds 0), n + length ds)
unfolding after_base
after_base-numeral base ds s n lo hi below end space =
    let tests : (ltb base 2 || ltb 64 base) ≡ false = ground arith in
    rw (tests, read_numeral base ds s n lo hi below end)
      (check_end-space (record { num = wrap (value base ds 0); count = n + length ds; rest = s })
        space)

hash_ends : ends_number b'#' ≡ true
unfolding is_alnum is_digit between
hash_ends = refl

based-numeral :
    (bs : List ℕ) (s : Bytes)
    → Below 10 bs
    → value 10 bs 0 ≤ 64
    → decimal_or_base (numeral bs (b'#' ∷ s)) ≡ after_base (value 10 bs 0) s (length bs + 1)
unfolding decimal_or_base base_or_num at
based-numeral bs s below hi =
    let count_eq : 0 + length bs ≡ length bs = omega arith in
    rw
      (
        read_numeral 10 bs (b'#' ∷ s) 0 (omega arith) (omega arith) below hash_ends,
        count_eq,
        wrap_base (value 10 bs 0) hi,
      )
      refl

-- get_num() reads a numeral as its number modulo 2^64 and counts its characters. The numeral is of decimal
-- digits with no leading 0 and no `#` behind; or `0x`, `0b` or `0`, the last with at least one digit, and
-- hexadecimal, binary or octal digits; or a decimal base from 2 to 64 with no leading 0, `#`, and digits below
-- the base. The digits are those of digit_char: 0-9, a-z for 10 to 35, A-Z for 36 to 61, `@` and `_`. A byte
-- that ends a number follows, and behind a numeral with its base a space or the end of the text.
pub get_num-numeral :
    (n : Numeral) (s : Bytes)
    → Fits n (at s 0)
    → ends_number (at s 0) ≡ true
    → get_num (written n s)
      ≡ some (wrap (value (radix n) (digits n) 0), front n + length (digits n))
get_num-numeral (decimal ds) s (lead, below, c) end =
    let count_eq : 0 + length ds ≡ length ds = omega arith in
    rw (Leads-decimal ds s lead below, count_eq) (decimal-numeral ds s below c end)
get_num-numeral (hex ds) s below end =
    unfold get_num at skip_two in in_base-numeral 16 ds s 2 (omega arith) (omega arith) below end
get_num-numeral (binary ds) s below end =
    unfold get_num at skip_two in in_base-numeral 2 ds s 2 (omega arith) (omega arith) below end
get_num-numeral (octal ds) s (ne, below) end =
    octal-numeral ds s ne below ∙ in_base-numeral 8 ds s 1 (omega arith) (omega arith) below end
get_num-numeral (based bs ds) s (lead, b_below, lo, hi, below, c) end =
    Leads-decimal bs (b'#' ∷ numeral ds s) lead b_below
    ∙ based-numeral bs (numeral ds s) b_below hi
    ∙ after_base-numeral (value 10 bs 0) ds s (length bs + 1) lo hi below end c
