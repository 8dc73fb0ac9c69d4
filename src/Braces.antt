-- ===== src/Braces.antt =====
-- The ranges of src/braceexp.c, {x..y..z}, over letters and over numbers. A char is a byte and a long a bit
-- pattern: both are signed, and their sums wrap around. What atol() reads from the texts is an argument.
pub mod Range
pub mod Items
use layla_shell.Arith.Text.{print_long}
use layla_shell.Arith.Digit.{is_digit}
use layla_shell.Prelude.Int.{ℤ, pos, negsuc}
use layla_shell.Prelude.Bytes.{Bytes}
use layla_shell.Prelude.{
  ℕ, zero, suc, ◌+◌, ◌-◌, ◌*◌, ◌%◌, ◌==◌, ◌||◌, Bool, true, false, Option, none, some, List, [],
  ◌∷◌, ◌++◌, leb, if◌then◌else◌, map,
}
use mathlib.Core.Option

-- the step: the magnitude of what was given, and 1 for 0 or for nothing
unfoldable pub step_of : Option ℤ → ℕ
step_of none = 1
step_of (some (pos zero)) = 1
step_of (some (pos (suc n))) = suc n
step_of (some (negsuc n)) = suc n

-- signed numbers of a width: `half` is the weight of the sign bit
module _ (half : ℕ) where
  unfoldable pub offset : ℕ → ℕ
  offset a = (a + half) % (half + half)

  unfoldable pub at_most : ℕ → ℕ → Bool
  unfolding offset
  at_most a b = leb (offset a) (offset b)

  unfoldable pub add_step : ℕ → ℕ → ℕ
  add_step z l = (l + z) % (half + half)

  unfoldable pub sub_step : ℕ → ℕ → ℕ
  sub_step z l = (l + (half + half - z % (half + half))) % (half + half)

  -- the loops that count the items; they do not end for every range
  unfoldable pub count_up : ℕ → ℕ → ℕ → ℕ → Option ℕ
  unfolding at_most add_step
  count_up zero y z l = none
  count_up (suc fuel) y z l =
      let rest = count_up fuel y z (add_step z l) in
      if at_most l y then Option.map suc rest else some 0

  unfoldable pub count_down : ℕ → ℕ → ℕ → ℕ → Option ℕ
  unfolding at_most sub_step
  count_down zero y z l = none
  count_down (suc fuel) y z l =
      let rest = count_down fuel y z (sub_step z l) in
      if at_most y l then Option.map suc rest else some 0

  -- the loops that make them
  unfoldable pub items_up : ℕ → ℕ → ℕ → List ℕ
  unfolding add_step
  items_up zero z x = []
  items_up (suc i) z x = x ∷ items_up i z (add_step z x)

  unfoldable pub items_down : ℕ → ℕ → ℕ → List ℕ
  unfolding sub_step
  items_down zero z x = []
  items_down (suc i) z x = x ∷ items_down i z (sub_step z x)

  unfoldable pub range : ℕ → ℕ → ℕ → ℕ → Option (List ℕ)
  unfolding at_most count_up count_down items_up items_down
  range fuel x y z =
      if at_most x y
      then Option.map (λ i. items_up i z x) (count_up fuel y z x)
      else Option.map (λ i. items_down i z x) (count_down fuel y z x)

-- a string of one char, which is empty for the NUL
unfoldable pub letter_text : ℕ → Bytes
letter_text x = if x == 0 then [] else x ∷ []

unfoldable pub get_letter_list : ℕ → ℕ → ℕ → Option ℤ → Option (List Bytes)
unfolding range letter_text step_of
get_letter_list fuel x y z = Option.map (λ xs. map letter_text xs) (range 128 fuel x y (step_of z))

unfoldable pub get_num_list : ℕ → ℕ → ℕ → Option ℤ → Option (List Bytes)
unfolding range step_of
get_num_list fuel x y z =
    Option.map (λ xs. map print_long xs) (range 9223372036854775808 fuel x y (step_of z))

unfoldable pub digits_only : Bytes → Bool
digits_only [] = true
digits_only (c ∷ s) = if is_digit c then digits_only s else false

unfoldable pub skip_sign : Bytes → Bytes
skip_sign [] = []
skip_sign (c ∷ s) = if c == b'+' || c == b'-' then s else c ∷ s

unfoldable pub is_num : Bytes → Bool
unfolding digits_only skip_sign
is_num str = digits_only (skip_sign str)

-- with the memory for the new string
unfoldable pub add_pre_post : Bytes → Bytes → Bytes → Bytes
add_pre_post str pre post = pre ++ str ++ post
