-- ===== src/Examples/Symtab.antt =====
-- Inputs for the symbol tables of src/symtab/symtab_hash.c: an outer scope in which `x` is 7, and a
-- local one.
use layla_shell.HashTable.Defs.{new_hashtable_sz, add_entry, bucket_of, set_bucket, calc_hash}
use layla_shell.HashTable.Fnv.{fnv1a}
use layla_shell.Strings.Search.{is_same_str}
use layla_shell.HashTable.Invariant.{IsValid, view}
use layla_shell.HashTable.Laws.{new_hashtable_sz-IsEmpty, Updates, add_entry-Updates}
use layla_shell.Symtab.Entry.{Vars, Hooks}
use layla_shell.Symtab.Stack.{
  Symtab, World, alloc_hash_table, new_symtab, symtab_stack_push, symtab_stack_add,
  symtab_stack_pop, get_symtab_entry, add_to_symtab,
}
use layla_shell.Symtab.Scope.{shape, add_all, pop-add_all-push}
use layla_shell.Symtab.Remove.{rem_from_symtab}
use layla_shell.Symtab.Unlink.{AreNamed, rem_from_symtab-Updates}
use layla_shell.Symtab.Local.{add_to_symtab-get, add_to_symtab-no_val}
use layla_shell.Prelude.Int.{pos, ◌+ℤ◌}
use layla_shell.Prelude.Bytes.{Bytes, codes}
use layla_shell.Prelude.{ℕ, Bool, List, ◌≡◌, refl, true, false, Option, none, some, [], ◌∷◌, arith}

abbrev quiet : Hooks
quiet = record { set_special_var = λ name v vars. vars; arithm_expand = λ text vars. (none, vars) }

abbrev no_special : Bytes → Option Bytes → Option Bytes
no_special name val = none

abbrev one_var : Vars
one_var a = record { name = codes "x"; val = some (codes "7"); flags = λ f. false }

abbrev outer : World
outer = record { vars = one_var; next = 1; tables = new_symtab (pos 0) ∷ []; symtab_level = pos 0 }

abbrev two_symbols : List (Bool × Bytes)
two_symbols = (false, codes "x") ∷ (true, codes "y") ∷ []

pop-add_all-push_example :
    (pushed : Symtab × World) × (symtab_stack_push outer ≡ some pushed)
    × (shape (symtab_stack_pop (add_all quiet no_special two_symbols pushed.1)).1 ≡ shape outer)
pop-add_all-push_example = pop-add_all-push quiet no_special two_symbols outer (omega arith)

-- the table of the local scope
abbrev inner : World
inner = record {
  vars = one_var;
  next = 1;
  tables = new_symtab (pos 1) ∷ new_symtab (pos 0) ∷ [];
  symtab_level = pos 1;
}

inner_pushed : symtab_stack_push outer ≡ some (new_symtab (pos 1), inner)
unfolding symtab_stack_push symtab_stack_add ◌+ℤ◌
inner_pushed = refl

alloc_hash_table-new : new_hashtable_sz true 256 ≡ some alloc_hash_table
unfolding alloc_hash_table new_hashtable_sz
alloc_hash_table-new = refl

empty-IsValid : IsValid alloc_hash_table
empty-IsValid =
    (new_hashtable_sz-IsEmpty ℕ 256 alloc_hash_table (omega arith) alloc_hash_table-new).0

add_to_symtab-get_example :
    let r = add_to_symtab quiet no_special true (codes "x") outer in
    (get_symtab_entry quiet no_special (codes "x") r.1).0 ≡ r.0
unfolding new_symtab
add_to_symtab-get_example =
    add_to_symtab-get quiet no_special true b'x' [] (new_symtab (pos 0)) [] outer refl empty-IsValid

empty_view : view alloc_hash_table (codes "x") ≡ none
empty_view =
    (new_hashtable_sz-IsEmpty ℕ 256 alloc_hash_table (omega arith) alloc_hash_table-new).1
      (codes "x")

add_to_symtab-no_val_example :
    let r = add_to_symtab quiet no_special true (codes "x") inner in
    (r.0 ≡ some 1) × ((r.1.vars 1).val ≡ none)
unfolding new_symtab
add_to_symtab-no_val_example =
    add_to_symtab-no_val quiet no_special true b'x' [] (new_symtab (pos 1))
      (new_symtab (pos 0) ∷ []) inner refl empty-IsValid empty_view

-- a table with the entry `x`, and its removal
abbrev with_x : Symtab
with_x = record { level = pos 0; items = (add_entry true alloc_hash_table (codes "x") 1).1 }

with_x-IsValid : IsValid with_x.items
with_x-IsValid = (add_entry-Updates alloc_hash_table empty-IsValid (codes "x") 1 empty_view).valid

with_x-AreNamed : AreNamed one_var (bucket_of with_x.items (codes "x"))
unfolding AreNamed bucket_of add_entry set_bucket alloc_hash_table calc_hash fnv1a
with_x-AreNamed = (refl, tt)

with_x-view : view with_x.items (codes "x") ≡ some 1
unfolding is_same_str
with_x-view =
    (add_entry-Updates alloc_hash_table empty-IsValid (codes "x") 1 empty_view).views (codes "x")

rem_from_symtab-Updates_example :
    let r = rem_from_symtab 1 one_var with_x in
    (r.0 ≡ true) × Updates with_x.items (codes "x") none r.1.items
rem_from_symtab-Updates_example =
    rem_from_symtab-Updates one_var with_x 1 with_x-IsValid with_x-AreNamed with_x-view
