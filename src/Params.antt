-- ===== src/Params.antt =====
-- The special and the positional parameters of src/params.c, and the shift builtin of
-- src/builtins/shift.c. The symbol table entry that the decimal text of `i` names is `val i`, with `none`
-- for NULL or no entry, and `count` is the value of $#. The entries are set without the hooks of
-- set_special_var(). malloc() has the memory.
pub mod Status
pub mod Shift
pub mod Joined
use layla_shell.Arith.Digit.{is_digit}
use layla_shell.Arith.Text.{strtol, print_long}
use layla_shell.Jobs.Status.{exited, signaled, stopped}
use layla_shell.Prelude.Int.{ℤ, pos, negsuc, pos_part, ◌-ℤ◌}
use layla_shell.Prelude.Bytes.{Bytes}
use layla_shell.Prelude.{
  ℕ, zero, suc, ◌+◌, ◌-◌, ◌/◌, ◌%◌, ◌^◌, Bool, true, false, not, ◌&&◌, ◌||◌, Option, none, some,
  List, [], ◌∷◌, ◌++◌, ◌==◌, if◌then◌else◌, ltb, leb, length,
}
use mathlib.Core.Option

-- WEXITSTATUS() and WSTOPSIG(), and WTERMSIG(), on the encoding of Linux
unfoldable pub high_byte : ℕ → ℕ
high_byte status = status / 256 % 256

unfoldable pub term_sig : ℕ → ℕ
term_sig status = status % 128

-- $? and the variable exit_status; `entry` is whether $? has an entry
pub record ExitStatus : Type 0 where
  pub exit_status : ℕ
  pub question : Option Bytes

-- sprintf("%u") of an int that is not negative prints as sprintf("%ld") does
unfoldable pub set_internal_exit_status : Bool → ExitStatus → ℕ → ExitStatus
unfolding print_long
set_internal_exit_status entry s status = record {
  exit_status = status;
  question = if entry then some (print_long status) else s.question;
}

-- the status that set_exit_status() takes out of the word of waitpid()
unfoldable pub extract_status : ℕ → ℕ
unfolding exited signaled stopped high_byte term_sig
extract_status status =
    if exited status
    then high_byte status
    else (if signaled status
        then term_sig status + 128
        else (if stopped status then high_byte status + 128 else status))

unfoldable pub set_exit_status : Bool → ExitStatus → ℕ → ExitStatus
unfolding set_internal_exit_status extract_status
set_exit_status entry s status = set_internal_exit_status entry s (extract_status status % 256)

-- the loop of is_pos_param()
unfoldable pub all_digits : Bytes → Bool
unfolding is_digit
all_digits [] = true
all_digits (c ∷ name) = if is_digit c then all_digits name else false

-- a name has at least one character
unfoldable pub is_pos_param : Bytes → Bool
unfolding all_digits is_digit
is_pos_param (c ∷ []) = is_digit c
is_pos_param name = all_digits name

unfoldable pub is_special_char : ℕ → Bool
is_special_char c =
    c == b'#' || c == b'?' || c == b'-' || c == b'$' || c == b'!' || c == b'@' || c == b'*'

unfoldable pub is_special_param : Bytes → Bool
unfolding is_special_char
is_special_param (c ∷ []) = is_special_char c
is_special_param name = false

pub record Params : Type 0 where
  pub count : ℤ
  pub val : ℕ → Option Bytes

unfoldable pub set_val : Params → ℕ → Option Bytes → Params
set_val p i v = record p { val = λ k. if k == i then v else p.val k }

-- the loop of reset_pos_params(), from `j` on
unfoldable pub unset_loop : ℕ → ℕ → Params → Params
unfolding set_val
unset_loop zero j p = p
unset_loop (suc n) j p = unset_loop n (j + 1) (set_val p j none)

unfoldable pub reset_pos_params : Params → Params
unfolding unset_loop
reset_pos_params p = record (unset_loop (pos_part p.count) 1 p) { count = pos 0 }

-- the loop of set_local_pos_params(), on the local table, from `i` on
unfoldable pub set_loop : List Bytes → ℕ → Params → Params
unfolding set_val
set_loop [] i p = p
set_loop (v ∷ params) i p = set_loop params (i + 1) (set_val p i (some v))

-- the values as they are seen through the local table; the old ones behind them are hidden
unfoldable pub set_local_pos_params : Params → List Bytes → Params
unfolding set_loop unset_loop
set_local_pos_params p [] = p
set_local_pos_params p (v ∷ params) =
    let n = length (v ∷ params) in
    record (unset_loop (pos_part p.count - n) (n + 1) (set_loop (v ∷ params) 1 p)) { count = pos n }

-- the values of `n` parameters, from the `i`-th on, with the empty text for one that is not set
unfoldable pub values : Params → ℕ → ℕ → List Bytes
values p zero i = []
values p (suc n) i = Option.get_or (p.val i) [] ∷ values p n (i + 1)

-- the loop that adds up the memory
unfoldable pub memory_len : Bool → List Bytes → ℕ
memory_len quoted [] = 0
memory_len quoted (v ∷ vs) = length v + (if quoted then 2 else 0) + 1 + memory_len quoted vs

-- what is written between two values
unfoldable pub glue : Bool → ℕ → Bytes
glue true separator = b'"' ∷ b' ' ∷ b'"' ∷ []
glue false separator = if separator == 0 then [] else separator ∷ []

-- the loop that copies the values
unfoldable pub copy_values : Bool → ℕ → List Bytes → Bytes
unfolding glue
copy_values quoted separator [] = []
copy_values quoted separator (v ∷ []) = v
copy_values quoted separator (v ∷ w ∷ vs) =
    v ++ glue quoted separator ++ copy_values quoted separator (w ∷ vs)

-- the first character of $IFS: a space if it is not set, the NUL if it is empty
unfoldable pub ifs_char : Option Bytes → ℕ
ifs_char none = b' '
ifs_char (some []) = 0
ifs_char (some (c ∷ ifs)) = c

-- whether the values are quoted one by one, and the separator
unfoldable pub style : Option Bytes → ℕ → Bool → Bool × ℕ
unfolding ifs_char
style ifs which quoted =
    if which == b'*' || (which == b'@' && not quoted)
    then (false, if quoted then ifs_char ifs else b' ')
    else (true, 0)

-- how many values, from `offset` on, of the `$# + 1` that there are with $0
unfoldable pub value_count : ℤ → ℕ → ℕ → ℕ
value_count (pos n) offset count =
    (if ltb (n + 1) (offset + count) then n + 1 else offset + count) - offset
value_count (negsuc n) offset count = 0

-- the size of the memory, and the text
unfoldable pub get_pos_params_str : Params → Option Bytes → ℕ → Bool → ℕ → ℕ → ℕ × Bytes
unfolding style value_count values memory_len copy_values
get_pos_params_str p ifs which quoted offset count =
    let s = style ifs which quoted in
    let vs = values p (value_count p.count offset count) offset in
    (memory_len s.0 vs + 1, copy_values s.0 s.1 vs)

unfoldable pub get_all_pos_params_str : Params → Option Bytes → ℕ → Bool → Option (ℕ × Bytes)
unfolding get_pos_params_str
get_all_pos_params_str p ifs which quoted =
    if pos_part p.count == 0
    then none
    else some (get_pos_params_str p ifs which quoted 1 (pos_part p.count))

-- the loop of shift_builtin(), from `i` on
unfoldable pub shift_loop : ℕ → ℕ → ℕ → Params → Params
unfolding set_val
shift_loop zero i shift p = p
shift_loop (suc n) i shift p = shift_loop n (i + 1) shift (set_val p i (p.val (i + shift)))

unfoldable pub shift_by : Params → ℕ → Params
unfolding shift_loop
shift_by p shift = record (shift_loop (pos_part p.count) 1 shift p) { count = p.count -ℤ pos shift }

unfoldable pub exceeds : ℕ → ℤ → Bool
exceeds shift (pos n) = ltb n shift
exceeds shift (negsuc n) = true

-- the argument as an int: `int shift = strtol(...)`, refused with a text behind it, above $#, or negative
unfoldable pub shift_arg : Params → ℕ × Bytes → ℕ × Params
unfolding shift_by exceeds
shift_arg p (n, c ∷ rest) = (2, p)
shift_arg p (n, []) =
    let shift = n % 2 ^ 32 in
    if leb (2 ^ 31) shift || exceeds shift p.count
    then (2, p)
    else (if shift == 0 then (0, p) else (0, shift_by p shift))

-- the exit status and the parameters; `posix` is option_set('P'), the first argument is the name
unfoldable pub shift_builtin : Bool → Params → List Bytes → ℕ × Params
unfolding shift_arg shift_by strtol
shift_builtin posix p (name ∷ []) = (0, shift_by p 1)
shift_builtin posix p (name ∷ arg ∷ args) =
    if posix && not (length args == 0) then (1, p) else shift_arg p (strtol arg)
shift_builtin posix p [] = (0, shift_by p 1)
