-- ===== src/Alphalist.antt =====
-- The sorted lists of src/alphalist.c, over the arrays of Strings/Buffer.antt. `qsort` is the C library's
-- sort by str_compare(), which is strcmp(); `mem` says whether the array can grow.
use mathlib.Core.List.{Perm, perm_middle}
use mathlib.Core.List.Perm
use mathlib.Core.Option
use layla_shell.Strings.Buffer.{
  NameBuffer, check_buffer_bounds, IsValid, FitsItems, check_buffer_bounds_lem,
}
use layla_shell.Prelude.Bytes.{Bytes, strcmp}
use layla_shell.Prelude.{
  ◌+◌, ◌*◌, ◌^◌, ◌<◌, ◌≤◌, ◌≡◌, refl, ◌≢◌, inl, inr, Bool, true, false, Option, none, some, List,
  [], ◌∷◌, ◌++◌, arith, ◌==◌, if◌then◌else◌, length, length-append, append-nil,
}
use Prim.Native.Nat.{Ordering}

unfoldable pub init_alpha_list : NameBuffer → NameBuffer
init_alpha_list list = record { count = 0; len = 0; items = none }

-- behind check_buffer_bounds(): the string goes to the end and the array is sorted
unfoldable pub put_sorted : (List Bytes → List Bytes) → NameBuffer → Bytes → NameBuffer
put_sorted qsort list str = record list {
  items = some (qsort (Option.get_or list.items [] ++ str ∷ []));
  count = list.count + 1;
}

unfoldable pub add_to_alpha_list :
    Bool → (List Bytes → List Bytes) → NameBuffer → Option Bytes → NameBuffer
unfolding check_buffer_bounds put_sorted
add_to_alpha_list mem qsort list none = list
add_to_alpha_list mem qsort list (some str) =
    let checked = check_buffer_bounds mem list in
    if checked.0 == 0 then checked.1 else put_sorted qsort checked.1 str

-- each string is not above the next one
abbrev pub IsSorted : List Bytes → Type 0
IsSorted [] = Unit
IsSorted (s ∷ []) = Unit
IsSorted (s ∷ t ∷ l) = (strcmp s t ≢ Ordering.gt) × IsSorted (t ∷ l)

-- what qsort() is documented to do
abbrev pub IsSorting : (List Bytes → List Bytes) → Type 0
IsSorting qsort =
    (l : List Bytes) → Perm (qsort l) l × IsSorted (qsort l) × (length (qsort l) ≡ length l)

-- strings that are added one after the other, the latest first
unfoldable pub add_all : (List Bytes → List Bytes) → List Bytes → NameBuffer
unfolding add_to_alpha_list init_alpha_list
add_all qsort [] = init_alpha_list (record { count = 0; len = 0; items = none })
add_all qsort (str ∷ older) = add_to_alpha_list true qsort (add_all qsort older) (some str)

-- a list of which the strings are known
pub record Holds (list : NameBuffer) (strs : List Bytes) : Type 0 where
  pub valid : IsValid list
  pub grown : list.len ≤ list.count * 2 + 32
  pub counted : list.count ≡ length strs
  pub same : Perm (Option.get_or list.items []) strs
  pub sorted : IsSorted (Option.get_or list.items [])

-- an append of one string, then the sort
sorted_append :
    (qsort : List Bytes → List Bytes) (l strs : List Bytes) (str : Bytes)
    → IsSorting qsort
    → Perm l strs
    → Perm (qsort (l ++ str ∷ [])) (str ∷ strs)
sorted_append qsort l strs str sorting same =
    Perm.trans (sorting (l ++ str ∷ [])).0
      (Perm.trans (perm_middle l []) (rw append-nil (Perm.cons str same)))

-- the array behind the string is as long as the count says
valid_put :
    (qsort : List Bytes → List Bytes) (b : NameBuffer) (o : Option (List Bytes)) (str : Bytes)
    → IsSorting qsort
    → FitsItems b o
    → b.count < b.len
    → (length (qsort (Option.get_or o [] ++ str ∷ [])) ≡ b.count + 1)
      × (b.count + 1 ≤ b.len)
      × (32 ≤ b.len)
valid_put qsort b none str sorting h room = absurd (omega arith)
valid_put qsort b (some xs) str sorting h room =
    (omega (arith, (sorting (xs ++ str ∷ [])).2, length-append xs (str ∷ [])), omega arith, h.2)

-- the branches of check_buffer_bounds_lem
put_Holds :
    (qsort : List Bytes → List Bytes) (list checked : NameBuffer) (strs : List Bytes) (str : Bytes)
    → IsSorting qsort
    → Holds list strs
    → IsValid checked
    → checked.count < checked.len
    → checked.count ≡ list.count
    → checked.len ≤ (list.count + 1) * 2 + 32
    → Option.get_or checked.items [] ≡ Option.get_or list.items []
    → Holds (put_sorted qsort checked str) (str ∷ strs)
unfolding put_sorted
put_Holds qsort list checked strs str sorting h valid room count len items = record {
  valid = record { fits = valid_put qsort checked checked.items str sorting valid.fits room };
  grown = omega (arith, count);
  counted = omega (arith, count, h.counted);
  same = rw items (sorted_append qsort (Option.get_or list.items []) strs str sorting h.same);
  sorted = (sorting (Option.get_or checked.items [] ++ str ∷ [])).1;
}

-- the array that check_buffer_bounds() leaves is not much longer than what is in it
checked_len :
    (b : NameBuffer)
    → b.len ≤ b.count * 2 + 32
    → b.len < 2 ^ 30
    → (check_buffer_bounds true b).1.len ≤ (b.count + 1) * 2 + 32
unfolding check_buffer_bounds
checked_len b h small = ground arith

add_to_alpha_list-Holds :
    (qsort : List Bytes → List Bytes) (list : NameBuffer) (strs : List Bytes) (str : Bytes)
    → IsSorting qsort
    → Holds list strs
    → length strs < 2 ^ 28
    → Holds (add_to_alpha_list true qsort list (some str)) (str ∷ strs)
unfolding add_to_alpha_list
add_to_alpha_list-Holds qsort list strs str sorting h small =
    let bound : list.len < 2 ^ 30 = omega (arith, h.grown, h.counted) in
    elim (check_buffer_bounds_lem true list h.valid bound) [
      | inl (ok, valid, room, count, items) ↦ rw ok (
          put_Holds qsort list (check_buffer_bounds true list).1 strs str sorting h valid room count
            (checked_len list h.grown bound) items)
      | inr (refused, mem, unchanged) ↦ absurd (have_memory mem)
    ]
  where
    have_memory : true ≢ false
    have_memory e = cc

-- Strings that are added to a new list one after the other, fewer than 2^28, stand in it sorted, each as
-- often as it was added, and the count and the array fit them.
pub add_all-Holds :
    (qsort : List Bytes → List Bytes) (strs : List Bytes)
    → IsSorting qsort
    → length strs < 2 ^ 28
    → Holds (add_all qsort strs) strs
unfolding add_all init_alpha_list
add_all-Holds qsort [] sorting small = record {
  valid = record { fits = (refl, refl) };
  grown = omega arith;
  counted = refl;
  same = Perm.refl [];
  sorted = tt;
}
add_all-Holds qsort (str ∷ older) sorting small =
    add_to_alpha_list-Holds qsort (add_all qsort older) older str sorting
      (add_all-Holds qsort older sorting (omega arith)) (omega arith)
