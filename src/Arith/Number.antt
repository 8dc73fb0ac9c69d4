-- ===== src/Arith/Number.antt =====
-- get_num() of src/shunt.c: the numbers at the start of a text. The C long wraps around at 2^64; a
-- negative one is a bit pattern from 2^63 on, which no base is.
use layla_shell.Arith.Op.{at}
use layla_shell.Arith.Machine.{◌>>=◌}
use layla_shell.Arith.Digit.{digit, no_digit, invalid, get_ndigit, is_digit, between}
use layla_shell.Prelude.Bytes.{Bytes}
use layla_shell.Prelude.{
  ℕ, ◌+◌, ◌*◌, ◌%◌, ◌^◌, Bool, not, ◌&&◌, ◌||◌, Option, none, some, [], ◌∷◌, ltb, ◌==◌,
  if◌then◌else◌,
}

unfoldable pub wrap : ℕ → ℕ
wrap n = n % 2 ^ 64

abbrev pub min_base : ℕ
min_base = 2

abbrev pub max_base : ℕ
max_base = 64

unfoldable pub isspace : ℕ → Bool
isspace c = c == b' ' || between 9 c 13

-- how many digits were read and their number, and the text behind them
pub record Scan : Type 0 where
  pub num : ℕ
  pub count : ℕ
  pub rest : Bytes

-- the loop over get_ndigit(); `none` is a digit that exceeds the base
unfoldable pub read_digits : ℕ → Bytes → ℕ → ℕ → Option Scan
read_digits base [] num n = some (record { num = num; count = n; rest = [] })
read_digits base (c ∷ s) num n = elim (get_ndigit c base) [
  | digit d ↦ read_digits base s (wrap (num * base + d)) (n + 1)
  | no_digit ↦ some (record { num = num; count = n; rest = c ∷ s })
  | invalid ↦ none
]

-- the number and `*char_count`
unfoldable pub in_base : ℕ → Bytes → ℕ → Option (ℕ × ℕ)
in_base base s n = do r ← read_digits base s 0 n; some (r.num, r.count)

-- behind `base#`
unfoldable pub check_end : Scan → Option (ℕ × ℕ)
check_end r =
    let c = at r.rest 0 in if not (c == 0) && not (isspace c) then none else some (r.num, r.count)

unfoldable pub after_base : ℕ → Bytes → ℕ → Option (ℕ × ℕ)
after_base base s n =
    if ltb base min_base || ltb max_base base
    then none
    else (do r ← read_digits base s 0 n; check_end r)

unfoldable pub base_or_num : Scan → Bytes → Option (ℕ × ℕ)
base_or_num r [] = some (r.num, r.count)
base_or_num r (c ∷ s) =
    if c == b'#' then after_base r.num s (r.count + 1) else some (r.num, r.count)

unfoldable pub decimal_or_base : Bytes → Option (ℕ × ℕ)
decimal_or_base s = do r ← read_digits 10 s 0 0; base_or_num r r.rest

-- what may follow a single zero
unfoldable pub ends_zero : ℕ → Bool
ends_zero c =
    isspace c
    || c == 0
    || c == b'+'
    || c == b'-'
    || c == b'*'
    || c == b'/'
    || c == b'%'
    || c == b'!'
    || c == b'^'
    || c == b','

unfoldable pub skip_two : Bytes → Bytes
skip_two (a ∷ b ∷ s) = s
skip_two _ = []

unfoldable pub skip_one : Bytes → Bytes
skip_one (a ∷ s) = s
skip_one [] = []

unfoldable pub get_num : Bytes → Option (ℕ × ℕ)
get_num s =
    let c = at s 1 in
    if at s 0 == b'0'
    then (if c == b'x' || c == b'X'
        then in_base 16 (skip_two s) 2
        else if c == b'b' || c == b'B'
        then in_base 2 (skip_two s) 2
        else if is_digit c
        then in_base 8 (skip_one s) 1
        else if ends_zero c
        then some (0, 1)
        else none)
    else decimal_or_base s
