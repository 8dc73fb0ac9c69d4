-- ===== src/Examples/Umask.antt =====
-- Inputs for the umask builtin of src/builtins/umask.c.
use layla_shell.Umask.{
  Who, PermAction, mask, failed, perform, symbolic_loop, octal_loop, print_symbolic,
}
use layla_shell.Umask.Perform.{
  Class, others, groups, users, low_bit_of, bit_after, perform-bit_after,
}
use layla_shell.Umask.Printed.{GivesAll, bit_of, symbolic_loop-print_symbolic}
use layla_shell.Arith.Bits.{test_bit}
use layla_shell.Prelude.Bytes.{codes}
use layla_shell.Prelude.{ℕ, ◌+◌, ◌<◌, ◌≡◌, refl, true, false, none, some, [], arith}

abbrev adds_write : PermAction
adds_write = record { op = b'+'; perm = 2; rest = [] }

abbrev group_only : Who
group_only = record { user = false; group = true; other = false }

perform-bit_after_example :
    test_bit (low_bit_of groups + 1) (perform group_only 493 adds_write)
    ≡ bit_after group_only groups b'+' (test_bit 1 2) (test_bit (low_bit_of groups + 1) 493)
perform-bit_after_example =
    perform-bit_after group_only groups 1 493 adds_write (omega arith) (omega arith)

-- 0755
rwxr_xr_x-GivesAll : GivesAll 493
unfolding GivesAll bit_of low_bit_of test_bit
rwxr_xr_x-GivesAll others = refl
rwxr_xr_x-GivesAll groups = refl
rwxr_xr_x-GivesAll users = refl

symbolic_loop-print_symbolic_example :
    (new : ℕ) × (symbolic_loop 4 0 (print_symbolic 493) ≡ some (mask new))
    × ((c : Class) (k : ℕ) → k < 3 → bit_of new c k ≡ bit_of 493 c k)
symbolic_loop-print_symbolic_example = symbolic_loop-print_symbolic 0 0 493 rwxr_xr_x-GivesAll

prints : print_symbolic 493 ≡ codes "u=rwx,g=rx,o=rx"
unfolding print_symbolic
prints = refl

-- the text for a class without permissions is refused
refuses_empty : symbolic_loop 4 0 (print_symbolic 488) ≡ some (failed 2)
unfolding print_symbolic symbolic_loop
refuses_empty = refl

-- two actions for one class are refused
refuses_second : symbolic_loop 9 0 (codes "u+r-w") ≡ some (failed 2)
unfolding symbolic_loop
refuses_second = refl

-- a clause without an operator is tried again and again
stays : symbolic_loop 50 0 (codes "u") ≡ none
unfolding symbolic_loop
stays = refl

octal : octal_loop (codes "0755") 0 ≡ mask 493
unfolding octal_loop
octal = refl
