-- ===== src/Umask.antt =====
-- The umask builtin of src/builtins/umask.c: the symbolic and the octal modes, and what `umask -S` prints.
-- `cur_perm` is the complement of the mask, below 01000; its bits are set and cleared as those of a long.
-- The options and the messages are left out; the newline of the output, too.
pub mod Perform
pub mod Printed
use layla_shell.Arith.Bits.{test_bit}
use layla_shell.Arith.Word.{bitwise}
use layla_shell.Arith.Digit.{is_digit}
use layla_shell.Prelude.Bytes.{Bytes}
use layla_shell.Prelude.{
  ℕ, zero, suc, ◌+◌, ◌-◌, ◌*◌, ◌%◌, Bool, true, false, not, ◌&&◌, ◌||◌, Option, none, some, [], ◌∷◌,
  ◌++◌, ◌==◌, if◌then◌else◌, leb, length,
}
use mathlib.Core.Option

-- the bits of `who`
pub record Who : Type 0 where
  pub user : Bool
  pub group : Bool
  pub other : Bool

-- a | b and a & ~b
unfoldable pub or_bits : ℕ → ℕ → ℕ
unfolding bitwise
or_bits a b = bitwise (λ x y. x || y) 64 a b

unfoldable pub clear_bits : ℕ → ℕ → ℕ
unfolding bitwise
clear_bits a b = bitwise (λ x y. x && not y) 64 a b

-- the flags, and the text from the first character that is none of the letters
unfoldable pub who_loop : Bytes → Who → Who × Bytes
who_loop [] who = (who, [])
who_loop (c ∷ s) who =
    if c == b'u'
    then who_loop s (record who { user = true })
    else (if c == b'g'
        then who_loop s (record who { group = true })
        else (if c == b'o'
            then who_loop s (record who { other = true })
            else (if c == b'a'
                then who_loop s (record { user = true; group = true; other = true })
                else (who, c ∷ s))))

-- at the end of the string the source leaves its pointer at the start
unfoldable pub get_who : Bytes → Who × Bytes
unfolding who_loop
get_who str =
    let found = who_loop str (record { user = false; group = false; other = false }) in
    (found.0, elim found.1 [ [] ↦ str | c ∷ s ↦ c ∷ s ])

unfoldable pub is_action : ℕ → Bool
is_action c = c == b'+' || c == b'-' || c == b'='

-- whether a class may execute
unfoldable pub has_exec : ℕ → Bool
unfolding test_bit
has_exec cur = test_bit 6 cur || test_bit 3 cur || test_bit 0 cur

-- the do loop of get_perm(), from `perm` on; `none` is ACTION_INVALID_ACTION
unfoldable pub perm_loop : ℕ → Bytes → ℕ → Option (ℕ × Bytes)
unfolding has_exec or_bits
perm_loop cur [] perm = some (perm, [])
perm_loop cur (c ∷ s) perm =
    if c == b'r'
    then perm_loop cur s (or_bits perm 4)
    else (if c == b'w'
        then perm_loop cur s (or_bits perm 2)
        else (if c == b'x'
            then perm_loop cur s (or_bits perm 1)
            else (if c == b'X'
                then perm_loop cur s (if has_exec cur then or_bits perm 1 else perm)
                else (if c == b',' then some (perm, c ∷ s) else none))))

-- the text behind the operator has to start with a permission
unfoldable pub perm_text : ℕ → Bytes → Option (ℕ × Bytes)
unfolding perm_loop
perm_text cur [] = none
perm_text cur (c ∷ s) =
    if c == b'r' || c == b'w' || c == b'x' || c == b'X' then perm_loop cur (c ∷ s) 0 else none

-- the operator, the permissions, and the rest of the text
pub record PermAction : Type 0 where
  pub op : ℕ
  pub perm : ℕ
  pub rest : Bytes

unfoldable pub get_perm : ℕ → Bytes → Option PermAction
unfolding is_action perm_text
get_perm cur [] = none
get_perm cur (op ∷ s) =
    if is_action op
    then Option.map (λ (r : ℕ × Bytes). record { op = op; perm = r.0; rest = r.1 })
        (perm_text cur s)
    else none

-- the `switch` for one class, with its mask and its permissions
unfoldable pub apply_class : Bool → ℕ → ℕ → ℕ → ℕ → ℕ
unfolding or_bits clear_bits
apply_class selected op cur mask perm =
    if selected
    then (if op == b'+'
        then or_bits cur perm
        else (if op == b'=' then or_bits (clear_bits cur mask) perm else clear_bits cur perm))
    else cur

-- the loop over the three classes; `who & mask_who` goes wrong for no class
unfoldable pub apply_action : Who → ℕ → ℕ → ℕ → ℕ
unfolding apply_class
apply_action who op cur perm =
    let others = apply_class who.other op cur 7 perm in
    let groups = apply_class who.group op others (7 * 8) (perm * 8) in
    apply_class who.user op groups (7 * 64) (perm * 64)

-- a permission mask, or an exit status
pub data Outcome : Type 0 where
  mask : ℕ → Outcome
  failed : ℕ → Outcome

-- after get_perm(), `none` for an invalid action: no change for + and - without permissions
unfoldable pub perform : Who → ℕ → PermAction → ℕ
unfolding apply_action
perform who cur a =
    if a.perm == 0 && not (a.op == b'=') then cur else apply_action who a.op cur a.perm

-- the loop over the actions of one class of users: the permissions and the text behind it
unfoldable pub actions_loop : ℕ → Who → ℕ → Bytes → Option (ℕ × Bytes)
unfolding get_perm perform is_action
actions_loop zero who cur s = none
actions_loop (suc fuel) who cur [] = some (cur, [])
actions_loop (suc fuel) who cur (c ∷ s) =
    if is_action c
    then elim (get_perm cur (c ∷ s)) [
      | none ↦ none
      | some a ↦ actions_loop fuel who (perform who cur a) a.rest
    ]
    else some (cur, c ∷ s)

unfoldable pub skip_commas : Bytes → Bytes
skip_commas [] = []
skip_commas (c ∷ s) = if c == b',' then skip_commas s else c ∷ s

-- who a clause is for, and its text from the operator on; `none` is an unknown character
unfoldable pub clause_who : Bytes → Option (Who × Bytes)
unfolding is_action get_who
clause_who [] = none
clause_who (c ∷ s) =
    if is_action c
    then some (record { user = true; group = true; other = true }, c ∷ s)
    else (if c == b'u' || c == b'g' || c == b'o' || c == b'a' then some (get_who (c ∷ s)) else none)

-- the loop of the symbolic mode; a clause whose operator is missing changes nothing and stays, so the loop
-- of the source does not end there, and this one runs out of its fuel
unfoldable pub symbolic_loop : ℕ → ℕ → Bytes → Option Outcome
unfolding clause_who actions_loop skip_commas
symbolic_loop zero cur s = none
symbolic_loop (suc fuel) cur [] = some (mask cur)
symbolic_loop (suc fuel) cur (c ∷ s) = elim (clause_who (c ∷ s)) [
  | none ↦ some (failed 1)
  | some w ↦ elim (actions_loop (length w.1 + 1) w.0 cur w.1) [
    | none ↦ some (failed 2)
    | some r ↦ symbolic_loop fuel r.0 (skip_commas r.1)
  ]
]

-- the octal mode
unfoldable pub octal_loop : Bytes → ℕ → Outcome
octal_loop [] new_perm = mask new_perm
octal_loop (c ∷ s) new_perm =
    if leb b'0' c && leb c b'7' then octal_loop s (new_perm * 8 + (c - b'0')) else failed 1

-- the permissions of one class that `umask -S` prints, from the bits of the user
unfoldable pub print_bits : ℕ → Bytes
unfolding test_bit
print_bits cur =
    (if test_bit 8 cur then b'r' ∷ [] else [])
    ++ (if test_bit 7 cur then b'w' ∷ [] else [])
    ++ (if test_bit 6 cur then b'x' ∷ [] else [])

-- the loop over the three classes, which shifts the permissions
unfoldable pub print_symbolic : ℕ → Bytes
unfolding print_bits
print_symbolic cur =
    b'u'
    ∷ b'='
    ∷ (print_bits cur
        ++ b','
          ∷ b'g'
          ∷ b'='
          ∷ (print_bits (cur * 8) ++ b',' ∷ b'o' ∷ b'=' ∷ print_bits (cur * 64)))
