-- ===== src/Params/Shift.antt =====
-- What the shift builtin of src/builtins/shift.c makes of the positional parameters.
use layla_shell.Params.{Params, set_val, shift_loop, shift_by, shift_arg, shift_builtin, exceeds}
use layla_shell.Arith.Text.{print_long, strtol-print_long}
use layla_shell.Prelude.Int.{pos, pos_part, ◌-ℤ◌}
use layla_shell.Prelude.Bytes.{Bytes}
use layla_shell.Prelude.{
  ℕ, zero, suc, ◌+◌, ◌%◌, ◌^◌, ◌<◌, ◌≤◌, ◌≡◌, refl, ◌∙◌, inl, inr, Bool, true, false, ◌&&◌, ◌||◌,
  [], ◌∷◌, ◌==◌, arith, if◌then◌else◌, ltb, leb, Bool-cases,
}

-- the values after the loop over `n` parameters from the `i`-th on
shift_loop-val :
    (n i shift k : ℕ) (p : Params)
    → 1 ≤ shift
    → (shift_loop n i shift p).val k
      ≡ (if leb i k && ltb k (i + n) then p.val (k + shift) else p.val k)
unfolding shift_loop set_val
shift_loop-val zero i shift k p pos_shift =
    let never : (leb i k && ltb k (i + 0)) ≡ false = ground arith in rw never refl
shift_loop-val (suc n) i shift k p pos_shift =
    shift_loop-val n (i + 1) shift k (set_val p i (p.val (i + shift))) pos_shift ∙ ground arith

-- the parameters before and after a shift by `n`: one less for each, and each has the value of the one
-- `n` places behind it
pub record IsShifted (p : Params) (n : ℕ) (after : Params) : Type 0 where
  pub fewer : after.count ≡ p.count -ℤ pos n
  pub moved : (k : ℕ) → 1 ≤ k → k ≤ pos_part p.count → after.val k ≡ p.val (k + n)
  pub others : (k : ℕ) → pos_part p.count < k → after.val k ≡ p.val k

shift_by-IsShifted : (p : Params) (n : ℕ) → 1 ≤ n → IsShifted p n (shift_by p n)
unfolding shift_by
shift_by-IsShifted p n pos_shift = record {
  fewer = refl;
  moved = λ k low high.
      let inside : (leb 1 k && ltb k (1 + pos_part p.count)) ≡ true = ground arith in
      shift_loop-val (pos_part p.count) 1 n k p pos_shift ∙ rw inside refl;
  others = λ k high.
      let outside : (leb 1 k && ltb k (1 + pos_part p.count)) ≡ false = ground arith in
      shift_loop-val (pos_part p.count) 1 n k p pos_shift ∙ rw outside refl;
}

no_more : (posix : Bool) → (posix && false) ≡ false
no_more true = refl
no_more false = refl

arg_shifts :
    (p : Params) (n params : ℕ)
    → p.count ≡ pos params
    → 1 ≤ n
    → n < 2 ^ 31
    → leb n params ≡ true
    → shift_arg p (n, []) ≡ (0, shift_by p n)
unfolding shift_arg exceeds
arg_shifts p n params count low high e =
    let whole : n % 2 ^ 32 ≡ n = omega arith in
    let taken : (leb (2 ^ 31) n || ltb params n) ≡ false = ground arith in
    let nonzero : (n == 0) ≡ false = ground arith in rw (whole, count, taken, nonzero) refl

arg_refused :
    (p : Params) (n params : ℕ)
    → p.count ≡ pos params
    → 1 ≤ n
    → n < 2 ^ 31
    → leb n params ≡ false
    → shift_arg p (n, []) ≡ (2, p)
unfolding shift_arg exceeds
arg_refused p n params count low high e =
    let whole : n % 2 ^ 32 ≡ n = omega arith in
    let refused : (leb (2 ^ 31) n || ltb params n) ≡ true = ground arith in
    rw (whole, count, refused) refl

-- The shift builtin with the text of a number from 1 to $# returns 0 and shifts by it; with the text of a
-- greater number that fits a C int it returns 2 and changes nothing.
pub shift_builtin-IsShifted :
    (posix : Bool) (p : Params) (name : Bytes) (n params : ℕ)
    → p.count ≡ pos params
    → 1 ≤ n
    → n < 2 ^ 31
    → let r = shift_builtin posix p (name ∷ print_long n ∷ []) in
      if leb n params then (r.0 ≡ 0) × IsShifted p n r.1 else (r.0 ≡ 2) × (r.1 ≡ p)
unfolding shift_builtin
shift_builtin-IsShifted posix p name n params count low high =
    rw (no_more posix, strtol-print_long n (omega arith))
      elim (Bool-cases (leb n params)) [
        | inl e ↦ rw (e, arg_shifts p n params count low high e) (refl, shift_by-IsShifted p n low)
        | inr e ↦ rw (e, arg_refused p n params count low high e) (refl, refl)
      ]
