-- ===== src/Symtab/Scope.antt =====
-- Scopes of the symbol table of src/symtab/symtab_hash.c.
use layla_shell.HashTable.Invariant.{IsValid, view}
use layla_shell.HashTable.Laws.{add_entry-Updates}
use layla_shell.Strings.Search.{is_same_str, is_same_str_iff}
use layla_shell.Symtab.Entry.{Hooks}
use layla_shell.Symtab.Stack.{
  Symtab, World, max_symtab, new_symtab, symtab_stack_add, symtab_stack_push, pop_tables,
  symtab_stack_pop, add_to_any_symtab, refresh, look_at, do_lookup, first_of, search_tables,
  get_symtab_entry, copy_from, add_local, add_in, add_to_symtab,
}
use mathlib.Core.Bool.{false≢true}
use layla_shell.Prelude.Int.{ℤ, pos, ◌+ℤ◌, ◌-ℤ◌, +ℤ_cancel}
use layla_shell.Prelude.Bytes.{Bytes}
use layla_shell.Prelude.{
  ℕ, ◌<◌, ◌≡◌, arith, refl, Bool, true, false, ◌&&◌, Option, none, some, List, [], ◌∷◌, ltb, length,
  if◌then◌else◌, ap, ◌∙◌, Bool-cases, inl, inr,
}

-- the stack and its level
abbrev pub shape : World → List Symtab × ℤ
shape w = (w.tables, w.symtab_level)

-- the tables below the local one, whether there is one, and the level
abbrev pub frame_of : List Symtab × ℤ → List Symtab × Bool × ℤ
frame_of ([], l) = ([], false, l)
frame_of (st ∷ ts, l) = (ts, true, l)

module _ (hooks : Hooks) (get_special_var : Bytes → Option Bytes → Option Bytes) where
  -- the table that add_to_any_symtab() leaves finds the new entry
  pub added_view :
      (symbol : Bytes) (st : Symtab) (w : World)
      → IsValid st.items
      → view st.items symbol ≡ none
      → view (add_to_any_symtab symbol st w).1.items symbol ≡ some w.next
  unfolding add_to_any_symtab
  added_view symbol st w valid fresh =
      let up = add_entry-Updates st.items valid symbol w.next fresh in
      let same : is_same_str symbol symbol ≡ true = (is_same_str_iff symbol symbol).1 refl in
      up.views symbol ∙ ap (λ b. if b then some w.next else view st.items symbol) same

  pub search_found :
      (str : Bytes) (st : Symtab) (tables : List Symtab) (w : World) (a : ℕ)
      → view st.items str ≡ some a
      → search_tables hooks get_special_var str (st ∷ tables) w
        ≡ (some a, record w { vars = refresh hooks get_special_var a w.vars })
  unfolding search_tables do_lookup first_of look_at
  search_found str st tables w a h =
      ap
        (λ (f : Option ℕ).
          first_of hooks get_special_var (f, look_at hooks get_special_var f w)
            (search_tables hooks get_special_var str tables w))
        h

  copy_from-shape :
      (a : ℕ) (r : Option ℕ × World) → shape (copy_from hooks get_special_var a r) ≡ shape r.1
  unfolding copy_from
  copy_from-shape a (none, w) = refl
  copy_from-shape a (some b, w) = refl

  look_at-shape : (f : Option ℕ) (w : World) → shape (look_at hooks get_special_var f w) ≡ shape w
  unfolding look_at
  look_at-shape none w = refl
  look_at-shape (some a) w = refl

  first_of-shape :
      (T : Type 0) (f : World → T) (r s : Option ℕ × World) (t : T)
      → f r.1 ≡ t
      → f s.1 ≡ t
      → f (first_of hooks get_special_var r s).1 ≡ t
  unfolding first_of
  first_of-shape T f (none, w) s t h h' = h'
  first_of-shape T f (some a, w) s t h h' = h

  search_tables-shape :
      (str : Bytes) (ts : List Symtab) (w : World)
      → shape (search_tables hooks get_special_var str ts w).1 ≡ shape w
  unfolding search_tables do_lookup
  search_tables-shape str [] w = refl
  search_tables-shape str (st ∷ ts) w =
      first_of-shape _ shape _ _ (shape w) (look_at-shape _ w) (search_tables-shape str ts w)

  pub add_local-shape :
      (inherit : Bool) (symbol : Bytes) (st : Symtab) (tables : List Symtab) (w : World)
      → shape (add_local hooks get_special_var inherit symbol st tables w).1
        ≡ ((add_to_any_symtab symbol st w).1 ∷ tables, w.symtab_level)
  unfolding add_local get_symtab_entry add_to_any_symtab
  add_local-shape inherit symbol st tables w =
      let added = add_to_any_symtab symbol st w in
      let w2 = record added.2 { tables = added.1 ∷ tables } in
      elim (Bool-cases (inherit && ltb 0 (length tables))) [
        | inl e ↦
            rw e (copy_from-shape added.0 _ ∙ search_tables-shape symbol (added.1 ∷ tables) w2)
        | inr e ↦ rw e refl
      ]

  add_in-frame :
      (inherit : Bool) (symbol : Bytes) (ts : List Symtab) (w : World)
      → w.tables ≡ ts
      → frame_of (shape (add_in hooks get_special_var inherit symbol ts w).1)
        ≡ frame_of (ts, w.symtab_level)
  unfolding add_in do_lookup
  add_in-frame inherit symbol [] w e = ap (λ ts. frame_of (ts, w.symtab_level)) e
  add_in-frame inherit symbol (st ∷ ts) w e =
      first_of-shape _ (λ w. frame_of (shape w)) _ _ _
        (ap frame_of (look_at-shape _ w) ∙ ap (λ ts. frame_of (ts, w.symtab_level)) e)
        (ap frame_of (add_local-shape inherit symbol st ts w))

  add_to_symtab-frame :
      (inherit : Bool) (symbol : Bytes) (w : World)
      → frame_of (shape (add_to_symtab hooks get_special_var inherit symbol w).1)
        ≡ frame_of (shape w)
  unfolding add_to_symtab
  add_to_symtab-frame inherit [] w = refl
  add_to_symtab-frame inherit (c ∷ symbol) w = add_in-frame inherit (c ∷ symbol) w.tables w refl

  -- any number of variables added, each with or without inheritance
  unfoldable pub add_all : List (Bool × Bytes) → World → World
  add_all [] w = w
  add_all ((inherit, symbol) ∷ ss) w =
      add_all ss (add_to_symtab hooks get_special_var inherit symbol w).1

  add_all-frame :
      (ss : List (Bool × Bytes)) (w : World) → frame_of (shape (add_all ss w)) ≡ frame_of (shape w)
  unfolding add_all
  add_all-frame [] w = refl
  add_all-frame ((inherit, symbol) ∷ ss) w =
      add_all-frame ss (add_to_symtab hooks get_special_var inherit symbol w).1
      ∙ add_to_symtab-frame inherit symbol w

  pop_tables-frame :
      (ts below : List Symtab) (w : World) (l : ℤ)
      → frame_of (ts, w.symtab_level) ≡ (below, true, l)
      → shape (pop_tables ts w).1 ≡ (below, l -ℤ pos 1)
  unfolding pop_tables
  pop_tables-frame [] below w l e = absurd (false≢true (ap (λ f. f.1) e))
  pop_tables-frame (st ∷ ts) below w l e = ap (λ f. (f.0, f.2 -ℤ pos 1)) e

  -- A scope leaves no trace on the stack: with less than 256 tables, symtab_stack_push() stays within its
  -- array, and after any number of add_to_symtab(), each with or without inheritance, and
  -- symtab_stack_pop(), the tables are the ones before, and so is the level.
  pub pop-add_all-push :
      (ss : List (Bool × Bytes)) (w : World)
      → length w.tables < max_symtab
      → (pushed : Symtab × World) × (symtab_stack_push w ≡ some pushed)
        × (shape (symtab_stack_pop (add_all ss pushed.1)).1 ≡ shape w)
  unfolding symtab_stack_pop symtab_stack_push symtab_stack_add
  pop-add_all-push ss w room =
      let level = w.symtab_level +ℤ pos 1 in
      let pushed = record w { tables = new_symtab level ∷ w.tables; symtab_level = level } in
      let fits : ltb (length w.tables) max_symtab ≡ true = ground arith in
      (
        (new_symtab level, pushed),
        rw fits refl,
        pop_tables-frame (add_all ss pushed).tables w.tables (add_all ss pushed) level
              (add_all-frame ss pushed)
            ∙ ap (λ l. (w.tables, l)) (+ℤ_cancel w.symtab_level (pos 1)),
      )
