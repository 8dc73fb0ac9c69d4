-- ===== src/Strings/Join.antt =====
-- list_to_str() of src/strings.c. The array is a list, without the NULL that ends it; `mem` says
-- whether malloc() has the memory.
use layla_shell.Strings.Split.{split}
use layla_shell.Prelude.Bytes.{Bytes}
use layla_shell.Prelude.{
  ℕ, ◌+◌, ◌≡◌, refl, ◌≢◌, Bool, true, false, Option, none, some, List, [], ◌∷◌, ◌++◌, arith, length,
  length-append, append-nil, All, ne→==,
}

-- the loop that adds up `lens[i]`
unfoldable pub total_len : List Bytes → ℕ
total_len [] = 0
total_len (item ∷ list) = length item + 1 + total_len list

-- the loop of `sprintf(p, "%s ", list[i])`
unfoldable pub print_items : List Bytes → Bytes
print_items [] = []
print_items (item ∷ list) = item ++ b' ' ∷ print_items list

-- `p[-1] = '\0'`, if something was written
unfoldable pub cut_last : Bytes → Bytes
cut_last [] = []
cut_last (c ∷ []) = []
cut_last (c ∷ d ∷ s) = c ∷ cut_last (d ∷ s)

unfoldable pub list_to_str : Bool → Option (List Bytes) → Option Bytes
unfolding print_items cut_last
list_to_str mem none = none
list_to_str false (some list) = none
list_to_str true (some list) = some (cut_last (print_items list))

-- list_to_str() never writes past its buffer: the items, each with its space, and the terminator of
-- the last sprintf() take exactly the `len + 1` bytes that it allocates.
pub list_to_str-fits : (list : List Bytes) → length (print_items list) + 1 ≡ total_len list + 1
unfolding print_items total_len
list_to_str-fits [] = refl
list_to_str-fits (item ∷ list) =
    omega (arith, length-append item (b' ' ∷ print_items list), list_to_str-fits list)

cut_last-append : (s : Bytes) (c : ℕ) (t : Bytes) → cut_last (s ++ c ∷ t) ≡ s ++ cut_last (c ∷ t)
unfolding cut_last
cut_last-append [] c t = refl
cut_last-append (a ∷ []) c t = refl
cut_last-append (a ∷ b ∷ s) c t = rw (cut_last-append (b ∷ s) c t)

cut_last_cons :
    (c : ℕ) (s : Bytes) (d : ℕ) (t : Bytes)
    → cut_last (c ∷ (s ++ d ∷ t)) ≡ c ∷ cut_last (s ++ d ∷ t)
unfolding cut_last
cut_last_cons c [] d t = refl
cut_last_cons c (a ∷ s) d t = refl

abbrev pub HasNoSpace : Bytes → Type 0
HasNoSpace s = All (λ c. c ≢ b' ') s

split-item : (s : Bytes) → HasNoSpace s → split b' ' s ≡ s ∷ []
unfolding split
split-item [] h = refl
split-item (c ∷ s) h = rw (ne→== c 32 h.0, split-item s h.1)

split-item_append : (s t : Bytes) → HasNoSpace s → split b' ' (s ++ b' ' ∷ t) ≡ s ∷ split b' ' t
unfolding split
split-item_append [] t h = refl
split-item_append (c ∷ s) t h = rw (ne→== c 32 h.0, split-item_append s t h.1)

cut_last-print :
    (item : Bytes) (list : List Bytes)
    → All HasNoSpace (item ∷ list)
    → split b' ' (cut_last (print_items (item ∷ list))) ≡ item ∷ list
unfolding print_items
cut_last-print item [] h =
    rw (cut_last-append item 32 []) (unfold cut_last in rw append-nil (split-item item h.0))
cut_last-print item (next ∷ list) h =
    rw (cut_last-append, cut_last_cons, split-item_append item _ h.0, cut_last-print next list h.1)

-- The words of a non-empty list come back in order when the string of list_to_str() is split at its
-- spaces, if no word has a space in it.
pub split-list_to_str :
    (list : List Bytes) {r : Bytes}
    → list ≢ []
    → All HasNoSpace list
    → list_to_str true (some list) ≡ some r
    → split b' ' r ≡ list
unfolding list_to_str
split-list_to_str [] ne h e = absurd (ne refl)
split-list_to_str (item ∷ list) {r} ne h e =
    let same : cut_last (print_items (item ∷ list)) ≡ r = cc in
    rw (← same) (cut_last-print item list h)
