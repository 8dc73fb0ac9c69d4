-- ===== src/Braces/Items.antt =====
-- The string lists of src/braceexp.c: add_to_list() and remove_from_list(). The items are a function from
-- their indices; there is memory for the array and for the string.
use layla_shell.Prelude.Bytes.{Bytes}
use layla_shell.Prelude.{
  ℕ, zero, suc, ◌+◌, ◌-◌, ◌*◌, ◌<◌, ◌≤◌, ◌≡◌, refl, ◌∙◌, Bool, true, false, Option, none, some,
  ◌==◌, ap, Bool-cases, inl, inr, ltb, if◌then◌else◌, arith,
}

abbrev pub Items : Type 0
Items = ℕ → Option Bytes

-- `allocated` is false for a NULL list
pub record StringList : Type 0 where
  pub allocated : Bool
  pub items : Items
  pub list_count : ℕ
  pub list_size : ℕ

unfoldable pub put : ℕ → Option Bytes → Items → Items
put i s items j = if j == i then s else items j

-- the loop from the last item down to `where`, with so many items to move
unfoldable pub shift_items : ℕ → ℕ → Items → Items
unfolding put
shift_items zero start items = items
shift_items (suc n) start items =
    shift_items n start (put (start + n + 1) (items (start + n)) items)

unfoldable pub grown_size : StringList → ℕ
grown_size l =
    if l.allocated
    then (if l.list_count == l.list_size then l.list_size * 2 else l.list_size)
    else 8

unfoldable pub add_to_list : Bytes → ℕ → StringList → StringList
unfolding put shift_items grown_size
add_to_list str start l =
    let moved = l.list_count - start in
    record {
      allocated = true;
      items = put (l.list_count - moved) (some str) (shift_items moved start l.items);
      list_count = l.list_count + 1;
      list_size = grown_size l;
    }

-- the loop from `j` on, over so many items
unfoldable pub close_gap : ℕ → ℕ → Items → Items
unfolding put
close_gap zero j items = items
close_gap (suc n) j items = close_gap n (j + 1) (put j (items (j + 1)) items)

unfoldable pub remove_from_list : ℕ → StringList → StringList
unfolding put close_gap
remove_from_list i l =
    let k = l.list_count - 1 in
    record l { items = put (i + (k - i)) none (close_gap (k - i) i l.items); list_count = k }

shift_items-item :
    (n start : ℕ) (items : Items) (j : ℕ)
    → shift_items n start items j
      ≡ (if ltb start j then (if ltb (start + n) j then items j else items (j - 1)) else items j)
unfolding shift_items put
shift_items-item zero start items j = ground arith
shift_items-item (suc n) start items j =
    shift_items-item n start (put (start + n + 1) (items (start + n)) items) j
    ∙ elim (Bool-cases (j == start + n + 1)) [
      | inl here ↦
          let back : items (start + n) ≡ items (j - 1) = ap items (ground arith) in
          ground (arith, back)
      | inr other ↦ ground arith
    ]

close_gap-item :
    (n i : ℕ) (items : Items) (j : ℕ)
    → close_gap n i items j
      ≡ (if ltb j i then items j else (if ltb j (i + n) then items (j + 1) else items j))
unfolding close_gap put
close_gap-item zero i items j = ground arith
close_gap-item (suc n) i items j =
    close_gap-item n (i + 1) (put i (items (i + 1)) items) j ∙ elim (Bool-cases (j == i)) [
      | inl here ↦
          let next : items (i + 1) ≡ items (j + 1) = ap items (ground arith) in ground (arith, next)
      | inr other ↦ ground arith
    ]

-- the items below the count: those from `start` on move up by one
add_to_list-item :
    (str : Bytes) (start : ℕ) (l : StringList) (j : ℕ)
    → start ≤ l.list_count
    → j ≤ l.list_count
    → (add_to_list str start l).items j
      ≡ (if ltb j start then l.items j else (if j == start then some str else l.items (j - 1)))
unfolding add_to_list put
add_to_list-item str start l j inside within =
    let place : l.list_count - (l.list_count - start) ≡ start = omega arith in
    ground (arith, place, shift_items-item (l.list_count - start) start l.items j)

remove_from_list-item :
    (i : ℕ) (l : StringList) (j : ℕ)
    → i < l.list_count
    → j + 1 < l.list_count
    → (remove_from_list i l).items j ≡ (if ltb j i then l.items j else l.items (j + 1))
unfolding remove_from_list put
remove_from_list-item i l j inside within =
    ground (arith, close_gap-item (l.list_count - 1 - i) i l.items j)

-- the count fits the array, and there is none for a NULL list
unfoldable pub FitsArray : StringList → Type 0
FitsArray l =
    if l.allocated then (0 < l.list_size) × (l.list_count ≤ l.list_size) else l.list_count ≡ 0

grown_room :
    (allocated : Bool) (count size : ℕ)
    → (if allocated then (0 < size) × (count ≤ size) else count ≡ 0)
    → count + 1 ≤ (if allocated then (if count == size then size * 2 else size) else 8)
grown_room true count size h = let some_size = h.0 in let room = h.1 in ground arith
grown_room false count size h = omega arith

list_count-add_to_list :
    (str : Bytes) (start : ℕ) (l : StringList)
    → (add_to_list str start l).list_count ≡ l.list_count + 1
unfolding add_to_list
list_count-add_to_list str start l = refl

restored :
    (str : Bytes) (start : ℕ) (l : StringList) (j : ℕ)
    → start ≤ l.list_count
    → j < l.list_count
    → (remove_from_list start (add_to_list str start l)).items j ≡ l.items j
restored str start l j inside within =
    let count = list_count-add_to_list str start l in
    let back : l.items (j + 1 - 1) ≡ l.items j = ap l.items (omega arith) in
    remove_from_list-item start (add_to_list str start l) j (omega (arith, count))
      (omega (arith, count))
    ∙ elim (Bool-cases (ltb j start)) [
      | inl e ↦ rw e (add_to_list-item str start l j inside (omega arith) ∙ rw e refl)
      | inr e ↦
          let after : ltb (j + 1) start ≡ false = ground arith in
          let behind : (j + 1 == start) ≡ false = ground arith in
          rw e (add_to_list-item str start l (j + 1) inside (omega arith) ∙ rw (after, behind) back)
    ]

-- add_to_list() at a place within a list whose count fits its array leaves one string more, and the count
-- still fits: the new string stands at the place, those in front of it stay, and those behind move up by one.
-- remove_from_list() at that place then restores the count and every string.
pub remove_from_list-add_to_list :
    (str : Bytes) (start : ℕ) (l : StringList)
    → start ≤ l.list_count
    → FitsArray l
    → let l2 = add_to_list str start l in
      let l3 = remove_from_list start l2 in
      FitsArray l2
      × (l2.list_count ≡ l.list_count + 1)
      × ((j : ℕ)
          → j ≤ l.list_count
          → l2.items j ≡ (
              if ltb j start
              then l.items j
              else (if j == start then some str else l.items (j - 1))))
      × (l3.list_count ≡ l.list_count)
      × ((j : ℕ) → j < l.list_count → l3.items j ≡ l.items j)
unfolding FitsArray grown_size add_to_list remove_from_list
remove_from_list-add_to_list str start l inside fits =
    let room = grown_room l.allocated l.list_count l.list_size fits in
    (
      (omega arith, room),
      refl,
      λ j within. add_to_list-item str start l j inside within,
      omega arith,
      λ j within. restored str start l j inside within,
    )
