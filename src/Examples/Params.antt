-- ===== src/Examples/Params.antt =====
-- Inputs for the parameters of src/params.c: a script with the arguments `a` and `b`.
use layla_shell.Arith.Text.{print_long}
use layla_shell.Params.{
  Params, ExitStatus, set_exit_status, get_pos_params_str, shift_builtin, shift_by, copy_values,
  glue, style, value_count, values, ifs_char,
}
use layla_shell.Params.Shift.{IsShifted, shift_builtin-IsShifted}
use layla_shell.Params.Joined.{get_pos_params_str-fits}
use layla_shell.Params.Status.{set_exit_status_lem}
use layla_shell.Prelude.Int.{pos, negsuc, ◌-ℤ◌}
use layla_shell.Prelude.Bytes.{codes}
use layla_shell.Prelude.{
  ℕ, ◌+◌, ◌*◌, ◌<◌, ◌≤◌, ◌≡◌, refl, true, false, none, some, [], ◌∷◌, ◌==◌, arith, if◌then◌else◌,
  length,
}

abbrev two_args : Params
two_args = record {
  count = pos 2;
  val = λ i. if i == 1 then some (codes "a") else if i == 2 then some (codes "b c") else none;
}

shift_builtin-IsShifted_example :
    let r = shift_builtin false two_args (codes "shift" ∷ print_long 1 ∷ []) in
    (r.0 ≡ 0) × IsShifted two_args 1 r.1
shift_builtin-IsShifted_example =
    shift_builtin-IsShifted false two_args (codes "shift") 1 2 refl (omega arith) (omega arith)

-- without arguments, and with no parameters, the count goes below 0
shift_below :
    (shift_builtin false (record { count = pos 0; val = λ i. none }) (codes "shift" ∷ [])).1.count
    ≡ negsuc 0
unfolding shift_builtin shift_by ◌-ℤ◌
shift_below = refl

get_pos_params_str-fits_example :
    let r = get_pos_params_str two_args (some (codes ":")) b'*' true 1 2 in length r.1 + 1 ≤ r.0
get_pos_params_str-fits_example = get_pos_params_str-fits two_args (some (codes ":")) b'*' true 1 2

joined_runs : (get_pos_params_str two_args (some (codes ":")) b'*' true 1 2).1 ≡ codes "a:b c"
unfolding get_pos_params_str style value_count values copy_values glue ifs_char
joined_runs = refl

abbrev no_status : ExitStatus
no_status = record { exit_status = 0; question = none }

set_exit_status_lem_example :
    ((code : ℕ)
      → code < 256
      → (set_exit_status true no_status (code * 256)).question ≡ some (print_long code))
    × ((sig core : ℕ)
        → 0 < sig
        → sig < 127
        → (set_exit_status true no_status (sig + core * 128)).question
          ≡ some (print_long (sig + 128)))
    × ((sig : ℕ)
        → sig < 128
        → (set_exit_status true no_status (127 + sig * 256)).question
          ≡ some (print_long (sig + 128)))
set_exit_status_lem_example = set_exit_status_lem no_status
