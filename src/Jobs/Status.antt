-- ===== src/Jobs/Status.antt =====
-- The words that src/jobs.c reads: the status that waitpid() reports, the flags of a job, which
-- src/include/cmd.h declares, and the bits of child_exitbits.
use layla_shell.Arith.Bits.{test_bit}
use layla_shell.Prelude.{
  ℕ, zero, suc, ◌+◌, ◌*◌, ◌/◌, ◌%◌, ◌≡◌, refl, Bool, true, false, not, ◌&&◌, ◌||◌, ◌==◌, arith, ltb,
  if◌then◌else◌,
}

-- WIFEXITED(), WIFSIGNALED() and WIFSTOPPED() on the encoding of Linux: the low seven bits are 0 after
-- exit(), the number of the signal that ended the process, or all set.
unfoldable pub exited : ℕ → Bool
exited status = status % 128 == 0

unfoldable pub signaled : ℕ → Bool
signaled status = ltb 0 (status % 128) && ltb (status % 128) 127

unfoldable pub stopped : ℕ → Bool
stopped status = status % 256 == 127

-- WIFEXITED(status) || WIFSIGNALED(status)
unfoldable pub has_ended : ℕ → Bool
unfolding exited signaled
has_ended status = exited status || signaled status

-- RUNNING() and STOPPED() of cmd.h
unfoldable pub not_running : ℕ → Bool
unfolding exited signaled stopped
not_running status = exited status || signaled status || stopped status

unfoldable pub running : ℕ → Bool
unfolding not_running
running status = status == 0 || not (not_running status)

unfoldable pub is_stopped : ℕ → Bool
unfolding stopped
is_stopped status = not (status == 0) && stopped status

-- the bits of a job's `flags`
pub record JobFlags : Type 0 where
  pub foreground : Bool
  pub disowned : Bool
  pub notified : Bool
  pub notify : Bool
  pub job_control : Bool

-- `bits |= 1 << i`
unfoldable pub set_bit : ℕ → ℕ → ℕ
set_bit zero n = n / 2 * 2 + 1
set_bit (suc i) n = set_bit i (n / 2) * 2 + n % 2

-- `bits &= ~(1 << i)`
unfoldable pub clear_bit : ℕ → ℕ → ℕ
clear_bit zero n = n / 2 * 2
clear_bit (suc i) n = clear_bit i (n / 2) * 2 + n % 2

suc-== : (i j : ℕ) → (suc i == suc j) ≡ (i == j)
suc-== i j = ground arith

tail_bits : (m n : ℕ) → (m * 2 + n % 2) / 2 ≡ m
tail_bits m n = omega arith

head_bit : (m n : ℕ) → (m * 2 + n % 2) % 2 ≡ n % 2
head_bit m n = omega arith

-- what a bit is after another one is set
pub test_bit-set_bit :
    (i j n : ℕ) → test_bit j (set_bit i n) ≡ (if i == j then true else test_bit j n)
unfolding test_bit set_bit
test_bit-set_bit zero zero n = ground arith
test_bit-set_bit zero (suc j) n =
    let e : (n / 2 * 2 + 1) / 2 ≡ n / 2 = omega arith in
    let ne : (0 == suc j) ≡ false = ground arith in rw (e, ne) refl
test_bit-set_bit (suc i) zero n =
    let ne : (suc i == 0) ≡ false = ground arith in rw (head_bit (set_bit i (n / 2)) n, ne) refl
test_bit-set_bit (suc i) (suc j) n =
    rw (tail_bits (set_bit i (n / 2)) n, suc-== i j) (test_bit-set_bit i j (n / 2))

pub test_bit-clear_bit :
    (i j n : ℕ) → test_bit j (clear_bit i n) ≡ (if i == j then false else test_bit j n)
unfolding test_bit clear_bit
test_bit-clear_bit zero zero n = ground arith
test_bit-clear_bit zero (suc j) n =
    let e : n / 2 * 2 / 2 ≡ n / 2 = omega arith in
    let ne : (0 == suc j) ≡ false = ground arith in rw (e, ne) refl
test_bit-clear_bit (suc i) zero n =
    let ne : (suc i == 0) ≡ false = ground arith in rw (head_bit (clear_bit i (n / 2)) n, ne) refl
test_bit-clear_bit (suc i) (suc j) n =
    rw (tail_bits (clear_bit i (n / 2)) n, suc-== i j) (test_bit-clear_bit i j (n / 2))

pub test_bit-zero : (i : ℕ) → test_bit i 0 ≡ false
unfolding test_bit
test_bit-zero zero = refl
test_bit-zero (suc i) = test_bit-zero i
