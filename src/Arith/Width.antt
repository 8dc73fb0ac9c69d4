-- ===== src/Arith/Width.antt =====
-- How many bytes sprintf("%ld") writes into the buffers of src/shunt.c: 16 in eval_assign_val(), 32 in
-- do_eval_inc_dec().
use layla_shell.Arith.Word.{modulus, half, is_negative}
use layla_shell.Arith.Text.{
  print_digits, print_long, print_digits-last, print_digits-more, bound, bound_pos, lt_or_ge,
}
use layla_shell.Prelude.Bytes.{Bytes}
use layla_shell.Prelude.{
  ℕ, zero, suc, ◌+◌, ◌-◌, ◌/◌, ◌%◌, ◌^◌, ◌≤◌, ◌<◌, ◌≡◌, false, [], ◌∷◌, arith, leb, length,
  Bool-cases, inl, inr,
}

digits-le :
    (k fuel n : ℕ) (acc : Bytes)
    → n < bound k
    → 1 ≤ k
    → k ≤ fuel
    → length (print_digits fuel n acc) ≤ k + length acc
unfolding bound
digits-le zero fuel n acc h p le = absurd (omega arith)
digits-le (suc k) zero n acc h p le = absurd (omega arith)
digits-le (suc k) (suc fuel) n acc h p le = elim (lt_or_ge n 10) [
  | inl small ↦ rw (print_digits-last fuel n acc small) (omega arith)
  | inr large ↦
      let shorter =
        digits-le k fuel (n / 10) ((b'0' + n % 10) ∷ acc) (omega arith) (bound_pos k n h large)
          (omega arith) in
      rw (print_digits-more fuel n acc large) (omega (arith, shorter))
]

digits_grow : (fuel n : ℕ) (acc : Bytes) → length acc ≤ length (print_digits fuel n acc)
digits_grow zero n acc = unfold print_digits in omega arith
digits_grow (suc fuel) n acc = elim (lt_or_ge n 10) [
  | inl small ↦ rw (print_digits-last fuel n acc small) (omega arith)
  | inr large ↦
      let more = digits_grow fuel (n / 10) ((b'0' + n % 10) ∷ acc) in
      rw (print_digits-more fuel n acc large) (omega (arith, more))
]

bound_ge : (k : ℕ) → 1 ≤ bound k
unfolding bound
bound_ge zero = omega arith
bound_ge (suc k) = omega (arith, bound_ge k)

digits-ge :
    (k fuel n : ℕ) (acc : Bytes)
    → bound k ≤ n
    → k < fuel
    → k + 1 + length acc ≤ length (print_digits fuel n acc)
unfolding bound
digits-ge k zero n acc h le = absurd (omega arith)
digits-ge zero (suc fuel) n acc h le = elim (lt_or_ge n 10) [
  | inl small ↦ rw (print_digits-last fuel n acc small) (omega arith)
  | inr large ↦
      let more = digits_grow fuel (n / 10) ((b'0' + n % 10) ∷ acc) in
      rw (print_digits-more fuel n acc large) (omega (arith, more))
]
digits-ge (suc k) (suc fuel) n acc h le = elim (lt_or_ge n 10) [
  | inl small ↦ absurd (omega (arith, bound_ge k))
  | inr large ↦
      let longer = digits-ge k fuel (n / 10) ((b'0' + n % 10) ∷ acc) (omega arith) (omega arith) in
      rw (print_digits-more fuel n acc large) (omega (arith, longer))
]

-- The text of any long and its terminator fit the 32 bytes of do_eval_inc_dec().
pub print_long-fits : (n : ℕ) → n < modulus → length (print_long n) + 1 ≤ 32
unfolding print_long is_negative bound
print_long-fits n h = elim (Bool-cases (leb half n)) [
  | inl e ↦
      let lt : modulus - n < bound 19 = ground arith in
      rw e (omega (arith, digits-le 19 20 (modulus - n) [] lt (omega arith) (omega arith)))
  | inr e ↦
      let lt : n < bound 19 = ground arith in
      rw e (omega (arith, digits-le 19 20 n [] lt (omega arith) (omega arith)))
]

-- The text of a long from 10^15 on and its terminator do not fit the 16 bytes of eval_assign_val().
pub print_long-overflows : (n : ℕ) → 10 ^ 15 ≤ n → n < half → 16 < length (print_long n) + 1
unfolding print_long is_negative bound
print_long-overflows n lo hi =
    let plain : leb half n ≡ false = ground arith in
    rw plain (omega (arith, digits-ge 15 20 n [] lo (omega arith)))
