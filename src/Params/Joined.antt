-- ===== src/Params/Joined.antt =====
-- The text that get_pos_params_str() of src/params.c makes of the parameters, and its memory.
use layla_shell.Params.{
  Params, values, memory_len, glue, copy_values, style, value_count, get_pos_params_str,
}
use layla_shell.Prelude.Bytes.{Bytes}
use layla_shell.Prelude.{
  ℕ, ◌+◌, ◌≤◌, ◌≡◌, Bool, true, false, Option, List, [], ◌∷◌, ◌++◌, arith, if◌then◌else◌, length,
  length-append,
}

length-glue :
    (quoted : Bool) (separator : ℕ) → length (glue quoted separator) ≤ (if quoted then 3 else 1)
unfolding glue
length-glue true separator = omega arith
length-glue false separator = ground arith

length-copy_values :
    (quoted : Bool) (separator : ℕ) (vs : List Bytes)
    → length (copy_values quoted separator vs) ≤ memory_len quoted vs
unfolding copy_values memory_len
length-copy_values quoted separator [] = omega arith
length-copy_values quoted separator (v ∷ []) = omega arith
length-copy_values quoted separator (v ∷ w ∷ vs) =
    let tail = copy_values quoted separator (w ∷ vs) in
    let here = length-glue quoted separator in
    let sum : length (v ++ glue quoted separator ++ tail)
        ≡ length v + (length (glue quoted separator) + length tail) =
      omega (
        arith,
        length-append (v ++ glue quoted separator) tail,
        length-append v (glue quoted separator),
      ) in
    add_up quoted (length v) (length (glue quoted separator)) (length tail) _ _ sum here
      (length-copy_values quoted separator (w ∷ vs))
  where
    add_up :
        (q : Bool) (v g t total sum : ℕ)
        → sum ≡ v + (g + t)
        → g ≤ (if q then 3 else 1)
        → t ≤ total
        → sum ≤ v + (if q then 2 else 0) + 1 + total
    add_up true v g t total sum e h k = omega arith
    add_up false v g t total sum e h k = omega arith

-- get_pos_params_str() never writes past its memory: the text and its NUL fit what it allocates, for `$@`
-- and `$*`, quoted or not, with any $IFS.
pub get_pos_params_str-fits :
    (p : Params) (ifs : Option Bytes) (which : ℕ) (quoted : Bool) (offset count : ℕ)
    → let r = get_pos_params_str p ifs which quoted offset count in length r.1 + 1 ≤ r.0
unfolding get_pos_params_str
get_pos_params_str-fits p ifs which quoted offset count =
    let s = style ifs which quoted in
    let vs = values p (value_count p.count offset count) offset in
    omega (arith, length-copy_values s.0 s.1 vs)
