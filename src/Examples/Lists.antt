-- ===== src/Examples/Lists.antt =====
-- Inputs for the sorted lists and dynamic strings of src/alphalist.c and src/dstring.c, and for the
-- patterns of src/backend/pattern.c: a sort by insertion, and patterns that are equal strings.
use mathlib.Core.List.{Perm}
use mathlib.Core.List.Perm
use layla_shell.Alphalist.{IsSorted, IsSorting, add_all, Holds, add_all-Holds}
use layla_shell.Dstring.{Dstring, FitsBuffer, str_append, copy_bytes, str_append_fits_iff}
use layla_shell.Pattern.{match_prefix, match_suffix}
use layla_shell.Pattern.Extreme.{IsExtreme, match_prefix-IsExtreme, match_suffix-IsExtreme}
use layla_shell.Strings.Search.{is_same_str}
use layla_shell.Prelude.Bytes.{Bytes, codes, strcmp}
use layla_shell.Prelude.{
  ℕ, suc, ◌<◌, ◌≡◌, refl, ap, ◌≢◌, ◌↔◌, Bool, true, false, some, List, [], ◌∷◌, ◌++◌, arith, length,
  take, drop, if◌then◌else◌, Bool-cases, inl, inr, ◌∙◌,
}
use Prim.Native.Nat.{Ordering}

is_above : Ordering → Bool
is_above Ordering.gt = true
is_above _ = false

above-gt : (o : Ordering) → is_above o ≡ true → o ≡ Ordering.gt
unfolding is_above
above-gt Ordering.gt h = refl
above-gt Ordering.lt h = cc
above-gt Ordering.eq h = cc

not_above : (o : Ordering) → is_above o ≡ false → o ≢ Ordering.gt
unfolding is_above
not_above Ordering.gt h = λ e. cc
not_above Ordering.lt h = λ e. cc
not_above Ordering.eq h = λ e. cc

-- insertion behind the strings that are not above
insert : Bytes → List Bytes → List Bytes
insert s [] = s ∷ []
insert s (t ∷ l) = if is_above (strcmp s t) then t ∷ insert s l else s ∷ t ∷ l

insertion_sort : List Bytes → List Bytes
insertion_sort [] = []
insertion_sort (s ∷ l) = insert s (insertion_sort l)

strcmp_flip : (s t : Bytes) → strcmp s t ≡ Ordering.gt → strcmp t s ≢ Ordering.gt
unfolding strcmp
strcmp_flip [] [] h = λ e. cc
strcmp_flip [] (b ∷ t) h = λ e. cc
strcmp_flip (a ∷ s) [] h = λ e. cc
strcmp_flip (a ∷ s) (b ∷ t) h = ground (arith, strcmp_flip s t)

insert-Perm : (s : Bytes) (l : List Bytes) → Perm (insert s l) (s ∷ l)
unfolding insert
insert-Perm s [] = Perm.refl (s ∷ [])
insert-Perm s (t ∷ l) = elim (Bool-cases (is_above (strcmp s t))) [
  | inl e ↦ rw e (Perm.trans (Perm.cons t (insert-Perm s l)) (Perm.swap s t l))
  | inr e ↦ rw e (Perm.refl (s ∷ t ∷ l))
]

length-insert : (s : Bytes) (l : List Bytes) → length (insert s l) ≡ suc (length l)
unfolding insert
length-insert s [] = refl
length-insert s (t ∷ l) = ground (arith, length-insert s l)

-- behind a string that is not above the one to insert
insert_behind :
    (t s : Bytes) (l : List Bytes)
    → strcmp t s ≢ Ordering.gt
    → IsSorted (t ∷ l)
    → IsSorted (t ∷ insert s l)
unfolding insert
insert_behind t s [] below h = (below, tt)
insert_behind t s (u ∷ l) below (first, rest) = elim (Bool-cases (is_above (strcmp s u))) [
  | inl e ↦ rw e (first, insert_behind u s l (strcmp_flip s u (above-gt (strcmp s u) e)) rest)
  | inr e ↦ rw e (below, (not_above (strcmp s u) e, rest))
]

insert-IsSorted : (s : Bytes) (l : List Bytes) → IsSorted l → IsSorted (insert s l)
unfolding insert
insert-IsSorted s [] h = tt
insert-IsSorted s (t ∷ l) h = elim (Bool-cases (is_above (strcmp s t))) [
  | inl e ↦ rw e (insert_behind t s l (strcmp_flip s t (above-gt (strcmp s t) e)) h)
  | inr e ↦ rw e (not_above (strcmp s t) e, h)
]

insertion_sort-IsSorting : IsSorting insertion_sort
unfolding insertion_sort
insertion_sort-IsSorting [] = (Perm.refl [], tt, refl)
insertion_sort-IsSorting (s ∷ l) =
    let (same, sorted, size) = insertion_sort-IsSorting l in
    (
      Perm.trans (insert-Perm s (insertion_sort l)) (Perm.cons s same),
      insert-IsSorted s (insertion_sort l) sorted,
      length-insert s (insertion_sort l) ∙ ap suc size,
    )

abbrev names : List Bytes
names = codes "pwd" ∷ codes "cd" ∷ codes "ls" ∷ []

add_all-Holds_example : Holds (add_all insertion_sort names) names
add_all-Holds_example = add_all-Holds insertion_sort names insertion_sort-IsSorting (omega arith)

abbrev full : Dstring
full = record { buf = some (codes "abc"); buf_size = 4; buf_len = 3 }

str_append_fits_iff_example :
    let r = str_append true full (codes "defgh") 5 in
    (r.0 ≡ 1)
    × (r.1.buf ≡ some (codes "abc" ++ copy_bytes (codes "defgh") 5))
    × (FitsBuffer r.1 r.1.buf ↔ (8 < 8))
str_append_fits_iff_example = str_append_fits_iff full (codes "defgh") 5 (refl, omega arith)

match_prefix-IsExtreme_example :
    (r : ℕ) × (match_prefix (is_same_str (codes "a")) (codes "abc") true ≡ some r)
    × IsExtreme (λ k. is_same_str (codes "a") (take k (codes "abc"))) 1 3 true r
match_prefix-IsExtreme_example =
    match_prefix-IsExtreme (is_same_str (codes "a")) b'a' (codes "bc") true

match_suffix-IsExtreme_example :
    IsExtreme
      (λ k. is_same_str (codes "bc") (drop k (codes "abc")))
      1
      3
      true
      (match_suffix (is_same_str (codes "bc")) (codes "abc") false)
match_suffix-IsExtreme_example =
    match_suffix-IsExtreme (is_same_str (codes "bc")) (codes "abc") false
