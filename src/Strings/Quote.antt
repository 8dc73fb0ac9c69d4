-- ===== src/Strings/Quote.antt =====
-- quote_val() of src/strings.c. `mem` says whether malloc() has the memory; `none` is NULL.
use mathlib.Core.Option
use mathlib.Core.Option.{some-injective}
use layla_shell.Prelude.Bytes.{Bytes}
use layla_shell.Prelude.{
  ℕ, ◌+◌, ◌≡◌, refl, Bool, true, false, not, ◌&&◌, ◌||◌, Option, none, some, [], ◌∷◌, ◌++◌, arith,
  ◌==◌, if◌then◌else◌, length, length-append, append_assoc, append-nil, Bool-cases, inl, inr,
}

-- the two `switch` statements: the bytes that get a backslash
unfoldable pub needs_escape : Bool → ℕ → Bool
needs_escape escape_sq c =
    if c == b'\'' then escape_sq else c == b'\\' || c == b'`' || c == b'$' || c == b'"'

-- the loop that counts the backslashes
unfoldable pub count_escapes : Bool → Bytes → ℕ
unfolding needs_escape
count_escapes escape_sq [] = 0
count_escapes escape_sq (c ∷ v) =
    (if needs_escape escape_sq c then 1 else 0) + count_escapes escape_sq v

-- the loop that copies the value
unfoldable pub copy_escaped : Bool → Bytes → Bytes
unfolding needs_escape
copy_escaped escape_sq [] = []
copy_escaped escape_sq (c ∷ v) =
    if needs_escape escape_sq c
    then b'\\' ∷ c ∷ copy_escaped escape_sq v
    else c ∷ copy_escaped escape_sq v

-- the size that is passed to malloc()
unfoldable pub quote_size : Bytes → Bool → Bool → ℕ
unfolding count_escapes
quote_size [] add_quotes escape_sq = if add_quotes then 3 else 1
quote_size (c ∷ v) add_quotes escape_sq =
    count_escapes (escape_sq && not add_quotes) (c ∷ v)
    + length (c ∷ v)
    + (if add_quotes then 2 else 0)
    + 1

abbrev opt_quote : Bool → Bytes
opt_quote add_quotes = if add_quotes then b'"' ∷ [] else []

unfoldable pub quote_str : Bytes → Bool → Bool → Bytes
quote_str [] add_quotes escape_sq = if add_quotes then b'"' ∷ b'"' ∷ [] else []
quote_str (c ∷ v) add_quotes escape_sq =
    opt_quote add_quotes
    ++ copy_escaped (escape_sq && not add_quotes) (c ∷ v)
    ++ opt_quote add_quotes

unfoldable pub quote_val : Bool → Option Bytes → Bool → Bool → Option Bytes
unfolding quote_str
quote_val false val add_quotes escape_sq = none
quote_val true val add_quotes escape_sq =
    some (quote_str (Option.get_or val []) add_quotes escape_sq)

length-copy_escaped :
    (esc : Bool) (v : Bytes) → length (copy_escaped esc v) ≡ count_escapes esc v + length v
unfolding copy_escaped count_escapes
length-copy_escaped esc [] = refl
length-copy_escaped esc (c ∷ v) = elim (Bool-cases (needs_escape esc c)) [
  | inl e ↦ rw e (omega (arith, length-copy_escaped esc v))
  | inr e ↦ rw e (omega (arith, length-copy_escaped esc v))
]

-- quote_val() writes into its buffer exactly as many bytes as it allocated: the quoted string and
-- its terminator fill the block of the computed size, for every value and both flags.
pub quote_val-fills_buffer :
    (v : Bytes) (add_quotes escape_sq : Bool) {r : Bytes}
    → quote_val true (some v) add_quotes escape_sq ≡ some r
    → length r + 1 ≡ quote_size v add_quotes escape_sq
unfolding quote_val quote_size
quote_val-fills_buffer [] add_quotes escape_sq h = ground arith
quote_val-fills_buffer (c ∷ v) true escape_sq h = ground (
  arith,
  length-append (copy_escaped (escape_sq && false) (c ∷ v)) (b'"' ∷ []),
  length-copy_escaped (escape_sq && false) (c ∷ v),
)
quote_val-fills_buffer (c ∷ v) false escape_sq h = ground (
  arith,
  append-nil (copy_escaped (escape_sq && true) (c ∷ v)),
  length-copy_escaped (escape_sq && true) (c ∷ v),
)

-- How a POSIX shell reads the inside of a double-quoted word: `\\` quotes the four special bytes and
-- stands for itself before any other. `none` means that the word does not end, or that an expansion
-- starts in it.
unfoldable pub is_special : ℕ → Bool
is_special c = c == b'\\' || c == b'`' || c == b'$' || c == b'"'

abbrev prefix_read : Bytes → Option (Bytes × Bytes) → Option (Bytes × Bytes)
prefix_read pre o = Option.map (λ (r : Bytes × Bytes). (pre ++ r.0, r.1)) o

unfoldable pub read_dq : Bytes → Option (Bytes × Bytes)
unfolding is_special
read_dq [] = none
read_dq (c ∷ []) = if c == b'"' then some ([], []) else none
read_dq (c ∷ d ∷ s) =
    let escaped = prefix_read (d ∷ []) (read_dq s) in
    let kept = prefix_read (c ∷ d ∷ []) (read_dq s) in
    let plain = prefix_read (c ∷ []) (read_dq (d ∷ s)) in
    if c == b'"'
    then some ([], d ∷ s)
    else if c == b'\\'
    then (if is_special d then escaped else kept)
    else if c == b'`' || c == b'$'
    then none
    else plain

unfoldable pub read_quoted : Bytes → Option (Bytes × Bytes)
unfolding read_dq
read_quoted [] = none
read_quoted (c ∷ s) = if c == b'"' then read_dq s else none

read_plain :
    (c : ℕ) (x v rest : Bytes)
    → is_special c ≡ false
    → read_dq x ≡ some (v, rest)
    → read_dq (c ∷ x) ≡ some (c ∷ v, rest)
unfolding read_dq
read_plain c [] v rest p h = cc
read_plain c (d ∷ x) v rest p h = ground arith

read_escaped :
    (c : ℕ) (x v rest : Bytes)
    → is_special c ≡ true
    → read_dq x ≡ some (v, rest)
    → read_dq (b'\\' ∷ c ∷ x) ≡ some (c ∷ v, rest)
unfolding read_dq
read_escaped c x v rest p h = rw (p, h)

needs_escape-is_special : (c : ℕ) → needs_escape false c ≡ is_special c
unfolding needs_escape is_special
needs_escape-is_special c = ground arith

read-copy_escaped :
    (v rest : Bytes) → read_dq (copy_escaped false v ++ b'"' ∷ rest) ≡ some (v, rest)
unfolding copy_escaped
read-copy_escaped [] [] = unfold read_dq in refl
read-copy_escaped [] (d ∷ rest) = unfold read_dq in refl
read-copy_escaped (c ∷ v) rest = elim (Bool-cases (is_special c)) [
  | inl e ↦ rw (needs_escape-is_special, e) (read_escaped c _ v rest e (read-copy_escaped v rest))
  | inr e ↦ rw (needs_escape-is_special, e) (read_plain c _ v rest e (read-copy_escaped v rest))
]

read_dq-closing : (rest : Bytes) → read_dq (b'"' ∷ rest) ≡ some ([], rest)
unfolding read_dq
read_dq-closing [] = refl
read_dq-closing (d ∷ rest) = refl

read-quote_str :
    (v : Bytes) (escape_sq : Bool) (rest : Bytes)
    → read_quoted (quote_str v true escape_sq ++ rest) ≡ some (v, rest)
unfolding quote_str read_quoted
read-quote_str [] escape_sq rest = read_dq-closing rest
read-quote_str (c ∷ v) true rest = rw append_assoc (read-copy_escaped (c ∷ v) rest)
read-quote_str (c ∷ v) false rest = rw append_assoc (read-copy_escaped (c ∷ v) rest)

-- What quote_val() prints in double quotes is read back by a shell as exactly the value, whatever
-- follows it: the word ends at the closing quote, no expansion starts in it, and every byte is
-- there. A NULL value reads back as the empty string.
pub read-quote_val :
    (val : Option Bytes) (escape_sq : Bool) (rest r : Bytes)
    → quote_val true val true escape_sq ≡ some r
    → read_quoted (r ++ rest) ≡ some (Option.get_or val [], rest)
unfolding quote_val
read-quote_val val escape_sq rest r h =
    let e : quote_str (Option.get_or val []) true escape_sq ≡ r = cc in
    rw (← e) (read-quote_str (Option.get_or val []) escape_sq rest)
