-- ===== src/Arith/Digit.antt =====
-- get_ndigit() of src/shunt.c: the digits of the bases 2 to 64.
use layla_shell.Prelude.{
  ℕ, ◌+◌, ◌-◌, ◌<◌, ◌≤◌, ◌≡◌, Bool, true, not, ◌&&◌, ◌||◌, arith, ltb, leb, ◌==◌, if◌then◌else◌,
}

unfoldable pub between : ℕ → ℕ → ℕ → Bool
between a c b = leb a c && leb c b

unfoldable pub is_digit : ℕ → Bool
is_digit c = between b'0' c b'9'

unfoldable pub is_alnum : ℕ → Bool
is_alnum c = is_digit c || between b'a' c b'z' || between b'A' c b'Z'

-- a value, no digit at all, or a digit that is too large: the last one raises the error flag
pub data Digit : Type 0 where
  digit : ℕ → Digit
  no_digit invalid : Digit

-- the digits above 61
unfoldable pub last_digits : ℕ → ℕ → Digit
last_digits c base =
    if c == b'@' && (base == 63 || base == 64)
    then digit 62
    else if c == b'_' && base == 64
    then digit 63
    else invalid

unfoldable pub letters_either_case : ℕ → ℕ → Digit
letters_either_case c base =
    let max = b'a' + base - 11 in
    if between b'a' c max
    then digit (c - b'a' + 10)
    else if between b'A' c (max - 32)
    then digit (c - b'A' + 10)
    else last_digits c base

unfoldable pub letters : ℕ → ℕ → Digit
letters c base =
    if between b'a' c b'z'
    then digit (c - b'a' + 10)
    else if between b'A' c (b'A' + base - 37)
    then digit (c - b'A' + 36)
    else last_digits c base

unfoldable pub get_ndigit : ℕ → ℕ → Digit
get_ndigit c base =
    if is_alnum c || c == b'@' || c == b'_'
    then (if leb base 10
        then (if between b'0' c (b'0' + base - 1) then digit (c - b'0') else invalid)
        else if is_digit c
        then digit (c - b'0')
        else if leb base 36
        then letters_either_case c base
        else if leb base 64
        then letters c base
        else last_digits c base)
    else no_digit

-- how the digit of a value is written: 0-9, a-z, A-Z, `@` and `_`
unfoldable pub digit_char : ℕ → ℕ
digit_char d =
    if ltb d 10
    then b'0' + d
    else if ltb d 36
    then b'a' + (d - 10)
    else if ltb d 62
    then b'A' + (d - 36)
    else if d == 62
    then b'@'
    else b'_'

-- For a base from 2 to 64, a digit that get_ndigit() accepts has a value below the base.
pub get_ndigit-bound :
    (c base d : ℕ) → 2 ≤ base → base ≤ 64 → get_ndigit c base ≡ digit d → d < base
unfolding get_ndigit is_alnum is_digit between letters letters_either_case last_digits
get_ndigit-bound c base d lo hi h = ground arith

-- For a base from 2 to 64, get_ndigit() reads the digit of any value below the base as that value.
pub get_ndigit-digit_char :
    (base d : ℕ) → 2 ≤ base → base ≤ 64 → d < base → get_ndigit (digit_char d) base ≡ digit d
unfolding get_ndigit is_alnum is_digit between letters letters_either_case last_digits digit_char
get_ndigit-digit_char base d lo hi lt = ground arith

-- a byte at which the digits of every base end
abbrev pub ends_number : ℕ → Bool
ends_number c = not (is_alnum c || c == b'@' || c == b'_')

pub get_ndigit-end : (c base : ℕ) → ends_number c ≡ true → get_ndigit c base ≡ no_digit
unfolding get_ndigit
get_ndigit-end c base h = ground arith
