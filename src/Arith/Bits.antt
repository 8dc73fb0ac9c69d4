-- ===== src/Arith/Bits.antt =====
-- The bitwise operators of src/shunt.c against single bits.
use layla_shell.Arith.Word.{of_bool, bitwise, xor, bitand_long, bitxor_long, bitor_long}
use layla_shell.Prelude.{
  ℕ, zero, suc, ◌+◌, ◌*◌, ◌/◌, ◌%◌, ◌<◌, ◌≡◌, Bool, true, false, ◌&&◌, ◌||◌, ◌==◌, arith, ap, ◌∙◌,
}

-- bit `i` of a number
unfoldable pub test_bit : ℕ → ℕ → Bool
test_bit zero n = n % 2 == 1
test_bit (suc i) n = test_bit i (n / 2)

low_bit : (b : Bool) (n : ℕ) → ((of_bool b + 2 * n) % 2 == 1) ≡ b
unfolding of_bool
low_bit true n = ground arith
low_bit false n = ground arith

high_bits : (b : Bool) (n : ℕ) → (of_bool b + 2 * n) / 2 ≡ n
unfolding of_bool
high_bits true n = omega arith
high_bits false n = omega arith

pub bitwise-test_bit :
    (f : Bool → Bool → Bool) (w i a b : ℕ)
    → i < w
    → test_bit i (bitwise f w a b) ≡ f (test_bit i a) (test_bit i b)
unfolding test_bit bitwise
bitwise-test_bit f zero i a b h = absurd (omega arith)
bitwise-test_bit f (suc w) zero a b h =
    low_bit (f (a % 2 == 1) (b % 2 == 1)) (bitwise f w (a / 2) (b / 2))
bitwise-test_bit f (suc w) (suc i) a b h =
    ap (test_bit i) (high_bits (f (a % 2 == 1) (b % 2 == 1)) (bitwise f w (a / 2) (b / 2)))
    ∙ bitwise-test_bit f w i (a / 2) (b / 2) (omega arith)

-- Each of the 64 bits of `&`, `^` and `|` of two longs is the and, the exclusive or and the or of their
-- bits.
pub bits_lem :
    (a b i : ℕ)
    → i < 64
    → (test_bit i (bitand_long a b) ≡ (test_bit i a && test_bit i b))
      × (test_bit i (bitxor_long a b) ≡ xor (test_bit i a) (test_bit i b))
      × (test_bit i (bitor_long a b) ≡ (test_bit i a || test_bit i b))
unfolding bitand_long bitxor_long bitor_long
bits_lem a b i h = (
  bitwise-test_bit (λ x y. x && y) 64 i a b h,
  bitwise-test_bit xor 64 i a b h,
  bitwise-test_bit (λ x y. x || y) 64 i a b h,
)
