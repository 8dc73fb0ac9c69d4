-- ===== src/Arith/Division.antt =====
-- Division of longs in src/shunt.c against the integers.
use native.Mathlib.Nat.{div-add-mod, mod-lt, div-le_self, mul-le-mul_right}
use layla_shell.Arith.Number.{wrap}
use layla_shell.Arith.Word.{
  modulus, half, is_negative, uminus_long, magnitude, quotient, remainder, xor,
}
use layla_shell.Arith.Signed.{signed}
use layla_shell.Prelude.Int.{ℤ, pos, sub_ℕ, ◌+ℤ◌, ◌*ℤ◌}
use layla_shell.Prelude.{
  ℕ, ◌+◌, ◌-◌, ◌*◌, ◌/◌, ◌%◌, ◌≤◌, ◌<◌, ◌≡◌, ◌≢◌, ◌⊎◌, refl, Bool, true, false, arith,
  if◌then◌else◌, inl, inr,
}

-- an integer of a sign and a magnitude
abbrev pub of_sign : Bool → ℕ → ℤ
of_sign neg n = if neg then sub_ℕ 0 n else pos n

signed_sign : (a : ℕ) → a < modulus → signed a ≡ of_sign (is_negative a) (magnitude a)
unfolding signed magnitude is_negative
signed_sign a h = ground arith

signed-wrap : (n : ℕ) → n < half → signed (wrap n) ≡ pos n
unfolding signed wrap is_negative
signed-wrap n h = ground arith

signed-uminus : (n : ℕ) → n ≤ half → signed (uminus_long n) ≡ sub_ℕ 0 n
unfolding signed uminus_long wrap is_negative
signed-uminus n h = ground arith

-- division with remainder, of integers by their magnitudes
signs :
    (s t : Bool) (x y q r : ℕ)
    → y * q + r ≡ x
    → of_sign s x ≡ of_sign (xor s t) q *ℤ of_sign t y +ℤ of_sign s r
unfolding ◌*ℤ◌ ◌+ℤ◌ xor
signs true true x y q r e = ground arith
signs true false x y q r e = ground arith
signs false true x y q r e = ground arith
signs false false x y q r e = ground arith

quotient-lt : (x y : ℕ) → 1 ≤ y → x ≤ half → (x < half) ⊎ (2 ≤ y) → x / y < half
quotient-lt x y p le (inl lt) = omega (arith, div-le_self x y)
quotient-lt x y p le (inr two) = omega (arith, mul-le-mul_right (x / y) two, div-add-mod x y)

magnitude_le : (a : ℕ) → a < modulus → magnitude a ≤ half
unfolding magnitude is_negative
magnitude_le a h = ground arith

magnitude_pos : (b : ℕ) → 1 ≤ b → b < modulus → 1 ≤ magnitude b
unfolding magnitude is_negative
magnitude_pos b p h = ground arith

magnitude_fits :
    (a b : ℕ)
    → a < modulus
    → b < modulus
    → 1 ≤ b
    → (a ≢ half) ⊎ (b ≢ modulus - 1)
    → is_negative a ≡ is_negative b
    → (magnitude a < half) ⊎ (2 ≤ magnitude b)
unfolding magnitude is_negative
magnitude_fits a b ha hb p fits same = ground arith

quotient_signs :
    (s t : Bool) (q : ℕ)
    → q ≤ half
    → (s ≡ t → q < half)
    → signed
        (if s then (if t then wrap q else uminus_long q) else if t then uminus_long q else wrap q)
      ≡ of_sign (xor s t) q
unfolding xor
quotient_signs true true q le lt = signed-wrap q (lt refl)
quotient_signs true false q le lt = signed-uminus q le
quotient_signs false true q le lt = signed-uminus q le
quotient_signs false false q le lt = signed-wrap q (lt refl)

signed-quotient :
    (a b : ℕ)
    → a < modulus
    → b < modulus
    → 1 ≤ b
    → (a ≢ half) ⊎ (b ≢ modulus - 1)
    → signed (quotient a b)
      ≡ of_sign (xor (is_negative a) (is_negative b)) (magnitude a / magnitude b)
unfolding quotient
signed-quotient a b ha hb p fits =
    quotient_signs (is_negative a) (is_negative b) (magnitude a / magnitude b)
      (omega (arith, div-le_self (magnitude a) (magnitude b), magnitude_le a ha))
      (λ same.
        quotient-lt (magnitude a) (magnitude b) (magnitude_pos b p hb) (magnitude_le a ha)
          (magnitude_fits a b ha hb p fits same))

signed-small : (n : ℕ) → n < half → signed n ≡ pos n
unfolding signed is_negative
signed-small n h = ground arith

remainder_signs :
    (s : Bool) (r : ℕ) → r < half → signed (if s then uminus_long r else r) ≡ of_sign s r
remainder_signs true r h = signed-uminus r (omega arith)
remainder_signs false r h = signed-small r h

remainder_lt : (a b : ℕ) → b < modulus → 1 ≤ b → magnitude a % magnitude b < magnitude b
remainder_lt a b hb p = mod-lt (magnitude a) (magnitude_pos b p hb)

-- For two longs of which the second is not 0, -2^63 and -1 excepted, `/` and `%` divide the integers
-- towards zero: the dividend is the quotient times the divisor, plus the remainder; the remainder has
-- the sign of the dividend, and its magnitude is below the divisor's.
pub division_lem :
    (a b : ℕ)
    → a < modulus
    → b < modulus
    → 1 ≤ b
    → (a ≢ half) ⊎ (b ≢ modulus - 1)
    → (signed a ≡ signed (quotient a b) *ℤ signed b +ℤ signed (remainder a b))
      × (signed (remainder a b) ≡ of_sign (is_negative a) (magnitude a % magnitude b))
      × (magnitude a % magnitude b < magnitude b)
unfolding remainder
division_lem a b ha hb p fits =
    let lt = remainder_lt a b hb p in
    let rem =
      remainder_signs (is_negative a) (magnitude a % magnitude b)
        (omega (arith, lt, magnitude_le b hb)) in
    let sum =
      signs (is_negative a) (is_negative b) (magnitude a) (magnitude b) (magnitude a / magnitude b)
        (magnitude a % magnitude b) (div-add-mod (magnitude a) (magnitude b)) in
    (rw (signed-quotient a b ha hb p fits, rem, signed_sign a ha, signed_sign b hb) sum, rem, lt)
