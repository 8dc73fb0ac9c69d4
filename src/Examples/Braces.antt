-- ===== src/Examples/Braces.antt =====
-- Inputs for the ranges and the string lists of src/braceexp.c.
use layla_shell.Braces.{step_of, offset, get_letter_list, get_num_list, is_num}
use layla_shell.Braces.Items.{
  StringList, FitsArray, add_to_list, remove_from_list, remove_from_list-add_to_list,
}
use layla_shell.Braces.Range.{Ranges, get_num_list-Ranges}
use layla_shell.Arith.Text.{print_long, print_digits}
use layla_shell.Arith.Word.{is_negative}
use layla_shell.Prelude.Int.{pos, negsuc}
use layla_shell.Prelude.Bytes.{codes}
use layla_shell.Prelude.{
  ◌-◌, ◌==◌, ◌<◌, ◌≤◌, ltb, if◌then◌else◌, ℕ, ◌≡◌, refl, true, List, some, none, [], ◌∷◌, arith,
  map,
}

-- {a..f..2}
-- {10..1..-4}
get_num_list-Ranges_example :
    (ls : List ℕ) × (get_num_list 11 10 1 (some (negsuc 3)) ≡ some (map print_long ls))
    × Ranges 9223372036854775808 10 1 4 ls
unfolding step_of offset
get_num_list-Ranges_example =
    get_num_list-Ranges 10 10 1 (some (negsuc 3)) (omega arith) (omega arith) (omega arith)
      (omega arith)

letters_run :
    get_letter_list 7 b'a' b'f' (some (pos 2)) ≡ some (codes "a" ∷ codes "c" ∷ codes "e" ∷ [])
unfolding get_letter_list
letters_run = refl

numbers_run :
    get_num_list 11 10 1 (some (negsuc 3)) ≡ some (codes "10" ∷ codes "6" ∷ codes "2" ∷ [])
unfolding get_num_list print_long is_negative print_digits
numbers_run = refl

-- a step that is added to the last letter and wraps around
wraps : get_letter_list 20 b'a' b'z' (some (pos 256)) ≡ none
unfolding get_letter_list
wraps = refl

empty_num : is_num [] ≡ true
unfolding is_num
empty_num = refl

-- a full array of two strings, which is enlarged
abbrev two_strings : StringList
two_strings = record {
  allocated = true;
  items = λ j. if j == 0 then some (codes "a") else some (codes "c");
  list_count = 2;
  list_size = 2;
}

two_strings-FitsArray : FitsArray two_strings
unfolding FitsArray
two_strings-FitsArray = (omega arith, omega arith)

remove_from_list-add_to_list_example :
    let l2 = add_to_list (codes "b") 1 two_strings in
    let l3 = remove_from_list 1 l2 in
    FitsArray l2
    × (l2.list_count ≡ 3)
    × ((j : ℕ)
        → j ≤ 2
        → l2.items j ≡ (
            if ltb j 1
            then two_strings.items j
            else (if j == 1 then some (codes "b") else two_strings.items (j - 1))))
    × (l3.list_count ≡ 2)
    × ((j : ℕ) → j < 2 → l3.items j ≡ two_strings.items j)
remove_from_list-add_to_list_example =
    remove_from_list-add_to_list (codes "b") 1 two_strings (omega arith) two_strings-FitsArray
