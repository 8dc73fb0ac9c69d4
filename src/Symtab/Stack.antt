-- ===== src/Symtab/Stack.antt =====
-- The stack of symbol tables of src/symtab/symtab_hash.c. A table keeps the addresses of its entries in
-- the buckets of string_hash.c, whose hash it shares; the stack is a list, the local table first and
-- the global one last. `next` is the first address that malloc() has not given out; it does not fail,
-- since the shell exits if it does.
use layla_shell.HashTable.Defs.{Hashtab, add_entry, get_hash_item}
use layla_shell.Symtab.Entry.{Entry, Vars, Hooks, update, special_var, symtab_entry_setval}
use layla_shell.Prelude.Int.{ℤ, pos, ◌+ℤ◌, ◌-ℤ◌}
use layla_shell.Prelude.Bytes.{Bytes}
use mathlib.Core.Option
use layla_shell.Prelude.{
  ℕ, ◌+◌, Bool, true, false, ◌&&◌, Option, none, some, List, [], ◌∷◌, ltb, length, replicate,
  if◌then◌else◌,
}

pub record Symtab : Type 0 where
  pub level : ℤ
  pub items : Hashtab ℕ

pub record World : Type 0 where
  pub vars : Vars
  pub next : ℕ
  pub tables : List Symtab
  pub symtab_level : ℤ

unfoldable pub alloc_hash_table : Hashtab ℕ
alloc_hash_table = record { size = 256; used = 0; items = replicate 256 [] }

unfoldable pub new_symtab : ℤ → Symtab
new_symtab level = record { level = level; items = alloc_hash_table }

unfoldable pub init_symtab : World → World
init_symtab w = record w { tables = new_symtab (pos 0) ∷ []; symtab_level = pos 0 }

-- MAX_SYMTAB, the places of the array
abbrev pub max_symtab : ℕ
max_symtab = 256

-- with 256 tables the source writes behind the array, and there is no result
unfoldable pub symtab_stack_add : Symtab → World → Option World
symtab_stack_add symtab w =
    if ltb (length w.tables) max_symtab
    then some (record w { tables = symtab ∷ w.tables })
    else none

unfoldable pub symtab_stack_push : World → Option (Symtab × World)
unfolding symtab_stack_add
symtab_stack_push w =
    let level = w.symtab_level +ℤ pos 1 in
    let st = new_symtab level in
    Option.map (λ (w2 : World). (st, w2)) (symtab_stack_add st (record w { symtab_level = level }))

unfoldable pub pop_tables : List Symtab → World → Option Symtab × World
pop_tables [] w = (none, w)
pop_tables (st ∷ tables) w =
    (some st, record w { tables = tables; symtab_level = w.symtab_level -ℤ pos 1 })

unfoldable pub symtab_stack_pop : World → Option Symtab × World
symtab_stack_pop w = pop_tables w.tables w

-- a new entry, zeroed but for its name
unfoldable pub blank_entry : Bytes → Entry
blank_entry symbol = record { name = symbol; val = none; flags = λ f. false }

unfoldable pub add_to_any_symtab : Bytes → Symtab → World → ℕ × Symtab × World
add_to_any_symtab symbol st w =
    let entry = w.next in
    let st' = record st { items = (add_entry true st.items symbol entry).1 } in
    (entry, st', record w { vars = update entry (blank_entry symbol) w.vars; next = entry + 1 })

-- `get_special_var` is of src/vars.c; `inherit` is the option OPTION_LOCAL_VAR_INHERIT
module _ (hooks : Hooks) (get_special_var : Bytes → Option Bytes → Option Bytes) where
  unfoldable pub renew : ℕ → Option Bytes → Vars → Vars
  renew a none vars = vars
  renew a (some val) vars = update a (record (vars a) { val = some val }) vars

  -- the value of a special variable is made when it is looked up
  unfoldable pub refresh : ℕ → Vars → Vars
  refresh a vars =
      if (vars a).flags special_var
      then renew a (get_special_var (vars a).name (vars a).val) vars
      else vars

  unfoldable pub look_at : Option ℕ → World → World
  look_at none w = w
  look_at (some a) w = record w { vars = refresh a w.vars }

  unfoldable pub do_lookup : Bytes → Symtab → World → Option ℕ × World
  do_lookup str symtab w =
      let found = get_hash_item (some symtab.items) (some str) in (found, look_at found w)

  unfoldable pub first_of : Option ℕ × World → Option ℕ × World → Option ℕ × World
  first_of (none, w) rest = rest
  first_of (some a, w) rest = (some a, w)

  -- the loop from the local table down; on an empty stack, where the source reads in front of its
  -- array, nothing is found
  unfoldable pub search_tables : Bytes → List Symtab → World → Option ℕ × World
  search_tables str [] w = (none, w)
  search_tables str (st ∷ tables) w = first_of (do_lookup str st w) (search_tables str tables w)

  unfoldable pub get_symtab_entry : Bytes → World → Option ℕ × World
  get_symtab_entry str w = search_tables str w.tables w

  unfoldable pub get_local_symtab_entry : Bytes → World → Option ℕ × World
  get_local_symtab_entry str w = elim w.tables [ [] ↦ (none, w) | st ∷ tables ↦ do_lookup str st w ]

  -- value and attributes of the entry that a lookup finds
  unfoldable pub copy_from : ℕ → Option ℕ × World → World
  copy_from a (none, w) = w
  copy_from a (some b, w) =
      let flagged = update a (record (w.vars a) { flags = (w.vars b).flags }) w.vars in
      record w { vars = symtab_entry_setval hooks a (flagged b).val flagged }

  unfoldable pub add_local : Bool → Bytes → Symtab → List Symtab → World → Option ℕ × World
  add_local inherit symbol st tables w =
      let (a, st', w1) = add_to_any_symtab symbol st w in
      let w2 = record w1 { tables = st' ∷ tables } in
      if inherit && ltb 0 (length tables)
      then (some a, copy_from a (get_symtab_entry symbol w2))
      else (some a, w2)

  unfoldable pub add_in : Bool → Bytes → List Symtab → World → Option ℕ × World
  add_in inherit symbol [] w = (none, w)
  add_in inherit symbol (st ∷ tables) w =
      first_of (do_lookup symbol st w) (add_local inherit symbol st tables w)

  unfoldable pub add_to_symtab : Bool → Bytes → World → Option ℕ × World
  add_to_symtab inherit [] w = (none, w)
  add_to_symtab inherit (c ∷ symbol) w = add_in inherit (c ∷ symbol) w.tables w
