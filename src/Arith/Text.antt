-- ===== src/Arith/Text.antt =====
-- The text of a C long: what sprintf("%ld") prints and strtol() reads, in base 10, as src/shunt.c uses
-- them for the values of variables. A long is its bit pattern.
use layla_shell.Arith.Op.{at}
use layla_shell.Arith.Digit.{is_digit, between}
use layla_shell.Arith.Number.{isspace}
use layla_shell.Arith.Word.{modulus, half, is_negative}
use layla_shell.Prelude.Bytes.{Bytes}
use layla_shell.Prelude.{
  ℕ, zero, suc, ◌+◌, ◌-◌, ◌*◌, ◌/◌, ◌%◌, ◌≤◌, ◌<◌, ◌≡◌, refl, Bool, true, false, ◌⊎◌, [], ◌∷◌, ltb,
  leb, ◌==◌, if◌then◌else◌, arith, ap, ◌∙◌, Bool-cases, inl, inr,
}

-- the digits of `n` in front of `acc`
unfoldable pub print_digits : ℕ → ℕ → Bytes → Bytes
print_digits zero n acc = acc
print_digits (suc fuel) n acc =
    let rest = print_digits fuel (n / 10) ((b'0' + n % 10) ∷ acc) in
    if n / 10 == 0 then (b'0' + n % 10) ∷ acc else rest

-- a long has at most 19 digits
unfoldable pub print_long : ℕ → Bytes
print_long n =
    if is_negative n then b'-' ∷ print_digits 20 (modulus - n) [] else print_digits 20 n []

unfoldable pub skip_spaces : Bytes → Bytes
skip_spaces [] = []
skip_spaces (c ∷ s) = if isspace c then skip_spaces s else c ∷ s

unfoldable pub read_sign : Bytes → Bool × Bytes
read_sign [] = (false, [])
read_sign (c ∷ s) =
    if c == b'-' then (true, s) else if c == b'+' then (false, s) else (false, c ∷ s)

unfoldable pub scan_digits : Bytes → ℕ → ℕ × Bytes
scan_digits [] n = (n, [])
scan_digits (c ∷ s) n = if is_digit c then scan_digits s (n * 10 + (c - b'0')) else (n, c ∷ s)

-- out of range the nearest long
unfoldable pub clamp : Bool → ℕ → ℕ
clamp neg n =
    if neg
    then (if leb half n then half else if n == 0 then 0 else modulus - n)
    else if ltb n half
    then n
    else half - 1

-- the number and the text at `*endptr`, which is the whole text if no digit was found
unfoldable pub strtol : Bytes → ℕ × Bytes
strtol s =
    let signed = read_sign (skip_spaces s) in
    let found = scan_digits signed.1 0 in
    if is_digit (at signed.1 0) then (clamp signed.0 found.0, found.1) else (0, s)

unfoldable pub bound : ℕ → ℕ
bound zero = 1
bound (suc fuel) = 10 * bound fuel

pub lt_or_ge : (n m : ℕ) → (n < m) ⊎ (m ≤ n)
lt_or_ge n m = ground arith

pub bound_pos : (fuel n : ℕ) → n < 10 * bound fuel → 10 ≤ n → 1 ≤ fuel
unfolding bound
bound_pos zero n h le = absurd (omega arith)
bound_pos (suc fuel) n h le = omega arith

digit_test : (d : ℕ) → d < 10 → is_digit (b'0' + d) ≡ true
unfolding is_digit between
digit_test d h = ground arith

scan-digit :
    (d v : ℕ) (acc : Bytes)
    → d < 10
    → scan_digits ((b'0' + d) ∷ acc) v ≡ scan_digits acc (v * 10 + d)
unfolding scan_digits
scan-digit d v acc h =
    let test : is_digit (b'0' + d) ≡ true = digit_test d h in
    let digit_eq : b'0' + d - b'0' ≡ d = omega arith in rw (test, digit_eq) refl

pub print_digits-last :
    (fuel n : ℕ) (acc : Bytes) → n < 10 → print_digits (suc fuel) n acc ≡ (b'0' + n) ∷ acc
unfolding print_digits
print_digits-last fuel n acc h =
    let small : (n / 10 == 0) ≡ true = ground arith in
    let last_digit : n % 10 ≡ n = omega arith in rw (small, last_digit) refl

pub print_digits-more :
    (fuel n : ℕ) (acc : Bytes)
    → 10 ≤ n
    → print_digits (suc fuel) n acc ≡ print_digits fuel (n / 10) ((b'0' + n % 10) ∷ acc)
unfolding print_digits
print_digits-more fuel n acc h = let large : (n / 10 == 0) ≡ false = ground arith in rw large refl

scan-print :
    (fuel n : ℕ) (acc : Bytes)
    → n < bound fuel
    → 1 ≤ fuel
    → scan_digits (print_digits fuel n acc) 0 ≡ scan_digits acc n
unfolding bound
scan-print zero n acc h p = absurd (omega arith)
scan-print (suc fuel) n acc h p = elim (lt_or_ge n 10) [
  | inl small ↦
      let sum : 0 * 10 + n ≡ n = omega arith in
      rw (print_digits-last fuel n acc small, scan-digit n 0 acc small, sum) refl
  | inr large ↦
      let sum : n / 10 * 10 + n % 10 ≡ n = omega arith in
      rw (print_digits-more fuel n acc large) (
        scan-print fuel (n / 10) ((b'0' + n % 10) ∷ acc) (omega arith) (bound_pos fuel n h large)
        ∙ scan-digit (n % 10) (n / 10) acc (omega arith)
        ∙ ap (scan_digits acc) sum)
]

print-head :
    (fuel n : ℕ) (acc : Bytes)
    → is_digit (at acc 0) ≡ true
    → is_digit (at (print_digits fuel n acc) 0) ≡ true
unfolding print_digits
print-head zero n acc h = h
print-head (suc fuel) n acc h =
    let first : is_digit (at ((b'0' + n % 10) ∷ acc) 0) ≡ true =
      unfold at in digit_test (n % 10) (omega arith) in
    elim (Bool-cases (n / 10 == 0)) [
      | inl e ↦ rw e first
      | inr e ↦ rw e (print-head fuel (n / 10) ((b'0' + n % 10) ∷ acc) first)
    ]

plain_head :
    (s : Bytes) → is_digit (at s 0) ≡ true → (skip_spaces s ≡ s) × (read_sign s ≡ (false, s))
unfolding skip_spaces read_sign at isspace is_digit between
plain_head [] h = (refl, refl)
plain_head (c ∷ s) h = (ground arith, ground arith)

print-first : (fuel n : ℕ) → is_digit (at (print_digits (suc fuel) n []) 0) ≡ true
unfolding print_digits
print-first fuel n =
    let first : is_digit (at ((b'0' + n % 10) ∷ []) 0) ≡ true =
      unfold at in digit_test (n % 10) (omega arith) in
    elim (Bool-cases (n / 10 == 0)) [
      | inl e ↦ rw e first
      | inr e ↦ rw e (print-head fuel (n / 10) ((b'0' + n % 10) ∷ []) first)
    ]

scan-long : (n : ℕ) → n < modulus → scan_digits (print_digits 20 n []) 0 ≡ (n, [])
unfolding bound scan_digits
scan-long n h = scan-print 20 n [] (omega arith) (omega arith)

strtol-unsigned :
    (s : Bytes)
    → is_digit (at s 0) ≡ true
    → strtol s ≡ (let r = scan_digits s 0 in (clamp false r.0, r.1))
unfolding strtol
strtol-unsigned s h = let (skip, sign) = plain_head s h in rw (skip, sign, h) refl

strtol-minus :
    (s : Bytes)
    → is_digit (at s 0) ≡ true
    → strtol (b'-' ∷ s) ≡ (let r = scan_digits s 0 in (clamp true r.0, r.1))
unfolding strtol skip_spaces read_sign isspace between
strtol-minus s h = rw h refl

clamp-minus : (n : ℕ) → n < modulus → leb half n ≡ true → clamp true (modulus - n) ≡ n
unfolding clamp
clamp-minus n h e = ground arith

clamp-plus : (n : ℕ) → leb half n ≡ false → clamp false n ≡ n
unfolding clamp
clamp-plus n e = ground arith

-- strtol() reads what sprintf("%ld") prints, all of it and back to the number, for every long.
pub strtol-print_long : (n : ℕ) → n < modulus → strtol (print_long n) ≡ (n, [])
unfolding print_long is_negative
strtol-print_long n h = elim (Bool-cases (leb half n)) [
  | inl e ↦
      let below : modulus - n < modulus = ground arith in
      rw
        (
          e,
          strtol-minus (print_digits 20 (modulus - n) []) (print-first 19 (modulus - n)),
          scan-long (modulus - n) below,
          clamp-minus n h e,
        )
        refl
  | inr e ↦
      rw
        (
          e,
          strtol-unsigned (print_digits 20 n []) (print-first 19 n),
          scan-long n h,
          clamp-plus n e,
        )
        refl
]

-- the text of a long that is not negative starts with a digit
pub print_long-digit : (n : ℕ) → n < half → is_digit (at (print_long n) 0) ≡ true
unfolding print_long is_negative
print_long-digit n h = let plus : leb half n ≡ false = ground arith in rw plus (print-first 19 n)
