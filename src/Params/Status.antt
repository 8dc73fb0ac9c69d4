-- ===== src/Params/Status.antt =====
-- What set_exit_status() of src/params.c makes of the ways a process ends, and the names of parameters.
use layla_shell.Params.{
  high_byte, term_sig, ExitStatus, set_internal_exit_status, extract_status, set_exit_status,
}
use layla_shell.Arith.Text.{print_long}
use layla_shell.Jobs.Status.{exited, signaled, stopped}
use layla_shell.Prelude.{
  ℕ, ◌+◌, ◌*◌, ◌<◌, ◌%◌, ◌/◌, ◌≡◌, refl, true, false, ◌&&◌, some, ◌==◌, arith, ltb,
}

exit_word : (code : ℕ) → code < 256 → extract_status (code * 256) ≡ code
unfolding extract_status exited high_byte
exit_word code h =
    let ends : code * 256 % 128 ≡ 0 = omega arith in
    let high : code * 256 / 256 % 256 ≡ code = omega arith in rw (ends, high) refl

signal_word : (sig core : ℕ) → 0 < sig → sig < 127 → extract_status (sig + core * 128) ≡ sig + 128
unfolding extract_status exited signaled term_sig
signal_word sig core low high =
    let low_bits : (sig + core * 128) % 128 ≡ sig = omega arith in
    let ends : (sig == 0) ≡ false = ground arith in
    let kills : (ltb 0 sig && ltb sig 127) ≡ true = ground arith in rw (low_bits, ends, kills) refl

stop_word : (sig : ℕ) → sig < 256 → extract_status (127 + sig * 256) ≡ sig + 128
unfolding extract_status exited signaled stopped high_byte
stop_word sig h =
    let low_bits : (127 + sig * 256) % 128 ≡ 127 = omega arith in
    let byte : (127 + sig * 256) % 256 ≡ 127 = omega arith in
    let high : (127 + sig * 256) / 256 % 256 ≡ sig = omega arith in rw (low_bits, byte, high) refl

-- set_exit_status() of the word of a process that called exit() with a code below 256 sets $? to the code,
-- and of one that a signal ended, from 1 to 126, with a core or without, or that a signal below 128 stopped,
-- to 128 more than the signal.
pub set_exit_status_lem :
    (s : ExitStatus)
    → ((code : ℕ)
        → code < 256
        → (set_exit_status true s (code * 256)).question ≡ some (print_long code))
      × ((sig core : ℕ)
          → 0 < sig
          → sig < 127
          → (set_exit_status true s (sig + core * 128)).question ≡ some (print_long (sig + 128)))
      × ((sig : ℕ)
          → sig < 128
          → (set_exit_status true s (127 + sig * 256)).question ≡ some (print_long (sig + 128)))
unfolding set_exit_status set_internal_exit_status
set_exit_status_lem s = (
  λ code h. let small : code % 256 ≡ code = omega arith in rw (exit_word code h, small) refl,
  λ sig core low high.
      let small : (sig + 128) % 256 ≡ sig + 128 = omega arith in
      rw (signal_word sig core low high, small) refl,
  λ sig h.
      let small : (sig + 128) % 256 ≡ sig + 128 = omega arith in
      rw (stop_word sig (omega arith), small) refl,
)
