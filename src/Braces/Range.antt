-- ===== src/Braces/Range.antt =====
-- The ranges of src/braceexp.c against the arithmetic progressions they stand for.
use layla_shell.Braces.{
  offset, at_most, add_step, sub_step, count_up, count_down, items_up, items_down, range, step_of,
  letter_text, get_letter_list, get_num_list,
}
use layla_shell.Arith.Text.{print_long}
use layla_shell.Prelude.Int.{ℤ, pos, negsuc}
use layla_shell.Prelude.{
  map, ℕ, zero, suc, ◌+◌, ◌-◌, ◌<◌, ◌≤◌, ◌≡◌, refl, ap, true, false, Option, none, some, List, [],
  ◌∷◌, leb, leb→le, if◌then◌else◌, subst, Bool-cases, inl, inr, arith,
}
use mathlib.Core.Option

-- a progression from `x` up by `z`, in offsets, none of whose members is above `y` and whose next would be
unfoldable pub Climbs : ℕ → ℕ → ℕ → ℕ → List ℕ → Type 0
unfolding offset
Climbs half x y z [] = y < x
Climbs half x y z (l ∷ ls) = (offset half l ≡ x) × (x ≤ y) × Climbs half (x + z) y z ls

-- the same downwards; the next would be below `y`
unfoldable pub Falls : ℕ → ℕ → ℕ → ℕ → List ℕ → Type 0
unfolding offset
Falls half x y z [] = x < y
Falls half x y z (l ∷ ls) = (offset half l ≡ x) × (y ≤ x) × Falls half (x - z) y z ls

-- Sums that do not leave the width
module _ (half : ℕ)
    (up : (z l : ℕ)
      → offset half l + z < half + half
      → offset half (add_step half z l) ≡ offset half l + z) where
  climbs :
      (n y z l : ℕ)
      → 0 < z
      → offset half y + z < half + half
      → offset half y < n + offset half l
      → (i : ℕ) × (count_up half (suc n) y z l ≡ some i)
        × Climbs half (offset half l) (offset half y) z (items_up half i z l)
  unfolding count_up items_up Climbs at_most
  climbs zero y z l pz room enough =
      let above : leb (offset half l) (offset half y) ≡ false = ground arith in
      (0, rw above refl, omega arith)
  climbs (suc n) y z l pz room enough = elim (Bool-cases (leb (offset half l) (offset half y))) [
    | inl e ↦
        let le : offset half l ≤ offset half y = leb→le (offset half l) (offset half y) e in
        let next : offset half (add_step half z l) ≡ offset half l + z = up z l (omega arith) in
        let (i, counts, goes) = climbs n y z (add_step half z l) pz room (rw next (omega arith)) in
        (
          suc i,
          rw (e, counts) refl,
          (
            refl,
            le,
            subst (λ x. Climbs half x (offset half y) z (items_up half i z (add_step half z l)))
                next goes,
          ),
        )
    | inr e ↦ (0, rw e refl, ground arith)
  ]

-- differences that do not leave it
module _ (half : ℕ)
    (down : (z l : ℕ)
      → z ≤ offset half l
      → offset half l < half + half
      → offset half (sub_step half z l) ≡ offset half l - z) where
  falls :
      (n y z l : ℕ)
      → 0 < z
      → offset half l < half + half
      → z ≤ offset half y
      → offset half l < n + offset half y
      → (i : ℕ) × (count_down half (suc n) y z l ≡ some i)
        × Falls half (offset half l) (offset half y) z (items_down half i z l)
  unfolding count_down items_down Falls at_most
  falls zero y z l pz width room enough =
      let below : leb (offset half y) (offset half l) ≡ false = ground arith in
      (0, rw below refl, omega arith)
  falls (suc n) y z l pz width room enough =
      elim (Bool-cases (leb (offset half y) (offset half l))) [
        | inl e ↦
            let le : offset half y ≤ offset half l = leb→le (offset half y) (offset half l) e in
            let next : offset half (sub_step half z l) ≡ offset half l - z =
              down z l (omega arith) width in
            let (i, counts, goes) =
              falls n y z (sub_step half z l) pz (rw next (omega arith)) room
                (rw next (omega arith)) in
            (
              suc i,
              rw (e, counts) refl,
              (
                refl,
                le,
                subst
                    (λ x. Falls half x (offset half y) z (items_down half i z (sub_step half z l)))
                    next goes,
              ),
            )
        | inr e ↦ (0, rw e refl, ground arith)
      ]

offset-add_step_char :
    (z l : ℕ) → offset 128 l + z < 256 → offset 128 (add_step 128 z l) ≡ offset 128 l + z
unfolding offset add_step
offset-add_step_char z l h = omega arith

offset-add_step_long :
    (z l : ℕ)
    → offset 9223372036854775808 l + z < 18446744073709551616
    → offset 9223372036854775808 (add_step 9223372036854775808 z l)
      ≡ offset 9223372036854775808 l + z
unfolding offset add_step
offset-add_step_long z l h = omega arith

offset-sub_step_char :
    (z l : ℕ)
    → z ≤ offset 128 l
    → offset 128 l < 256
    → offset 128 (sub_step 128 z l) ≡ offset 128 l - z
unfolding offset sub_step
offset-sub_step_char z l h w = omega arith

offset-sub_step_long :
    (z l : ℕ)
    → z ≤ offset 9223372036854775808 l
    → offset 9223372036854775808 l < 18446744073709551616
    → offset 9223372036854775808 (sub_step 9223372036854775808 z l)
      ≡ offset 9223372036854775808 l - z
unfolding offset sub_step
offset-sub_step_long z l h w = omega arith

range_up :
    (half fuel x y z i : ℕ)
    → leb (offset half x) (offset half y) ≡ true
    → count_up half fuel y z x ≡ some i
    → range half fuel x y z ≡ some (items_up half i z x)
unfolding range at_most
range_up half fuel x y z i e counts = rw (e, counts) refl

range_down :
    (half fuel x y z i : ℕ)
    → leb (offset half x) (offset half y) ≡ false
    → count_down half fuel y z x ≡ some i
    → range half fuel x y z ≡ some (items_down half i z x)
unfolding range at_most
range_down half fuel x y z i e counts = rw (e, counts) refl

step_of-positive : (z : Option ℤ) → 0 < step_of z
unfolding step_of
step_of-positive none = omega arith
step_of-positive (some (pos zero)) = omega arith
step_of-positive (some (pos (suc n))) = omega arith
step_of-positive (some (negsuc n)) = omega arith

offset_char : (x : ℕ) → offset 128 x < 256
unfolding offset
offset_char x = omega arith

offset_long : (x : ℕ) → offset 9223372036854775808 x < 18446744073709551616
unfolding offset
offset_long x = omega arith

-- the items of a range: up to `y` or down to it, according to their order.
unfoldable pub Ranges : ℕ → ℕ → ℕ → ℕ → List ℕ → Type 0
unfolding at_most Climbs Falls
Ranges half x y z ls =
    if at_most half x y
    then Climbs half (offset half x) (offset half y) z ls
    else Falls half (offset half x) (offset half y) z ls

module _ (half : ℕ)
    (up : (z l : ℕ)
      → offset half l + z < half + half
      → offset half (add_step half z l) ≡ offset half l + z)
    (down : (z l : ℕ)
      → z ≤ offset half l
      → offset half l < half + half
      → offset half (sub_step half z l) ≡ offset half l - z) where
  range-Ranges :
      (n x y z : ℕ)
      → 0 < z
      → offset half x < half + half
      → offset half y + z < half + half
      → z ≤ offset half y
      → offset half y < n + offset half x
      → offset half x < n + offset half y
      → (ls : List ℕ) × (range half (suc n) x y z ≡ some ls) × Ranges half x y z ls
  unfolding Ranges at_most
  range-Ranges n x y z pz wx above below enough enough2 =
      elim (Bool-cases (leb (offset half x) (offset half y))) [
        | inl e ↦
            let (i, counts, goes) = climbs half up n y z x pz above enough in
            (items_up half i z x, range_up half (suc n) x y z i e counts, rw e goes)
        | inr e ↦
            let (i, counts, goes) = falls half down n y z x pz wx below enough2 in
            (items_down half i z x, range_down half (suc n) x y z i e counts, rw e goes)
      ]

-- With more rounds than the letters are apart, and the last one at least a step away from the limits of a
-- char, the items are the letters of a progression that starts at `x`, goes by the step towards `y`, stays
-- within it, and whose next member would not.
pub get_letter_list-Ranges :
    (n x y : ℕ) (z : Option ℤ)
    → offset 128 y + step_of z < 256
    → step_of z ≤ offset 128 y
    → offset 128 y < n + offset 128 x
    → offset 128 x < n + offset 128 y
    → (ls : List ℕ) × (get_letter_list (suc n) x y z ≡ some (map letter_text ls))
      × Ranges 128 x y (step_of z) ls
unfolding get_letter_list
get_letter_list-Ranges n x y z above below enough enough2 =
    let (ls, gives, goes) =
      range-Ranges 128 offset-add_step_char offset-sub_step_char n x y (step_of z)
        (step_of-positive z) (offset_char x) above below enough enough2 in
    (ls, ap (Option.map (λ xs. map letter_text xs)) gives, goes)

-- With more rounds than the numbers are apart, and the last one at least a step away from the limits of a
-- long, the loops of get_num_list() end, and its items are the texts of a progression that starts at `x`, goes
-- by the step towards `y`, stays within it, and whose next member would not.
pub get_num_list-Ranges :
    (n x y : ℕ) (z : Option ℤ)
    → offset 9223372036854775808 y + step_of z < 18446744073709551616
    → step_of z ≤ offset 9223372036854775808 y
    → offset 9223372036854775808 y < n + offset 9223372036854775808 x
    → offset 9223372036854775808 x < n + offset 9223372036854775808 y
    → (ls : List ℕ) × (get_num_list (suc n) x y z ≡ some (map print_long ls))
      × Ranges 9223372036854775808 x y (step_of z) ls
unfolding get_num_list
get_num_list-Ranges n x y z above below enough enough2 =
    let (ls, gives, goes) =
      range-Ranges 9223372036854775808 offset-add_step_long offset-sub_step_long n x y (step_of z)
        (step_of-positive z) (offset_long x) above below enough enough2 in
    (ls, ap (Option.map (λ xs. map print_long xs)) gives, goes)
