-- ===== src/Symtab/Local.antt =====
-- New variables in the local table of src/symtab/symtab_hash.c.
use layla_shell.HashTable.Invariant.{IsValid, view}
use layla_shell.Symtab.Entry.{Entry, Vars, Hooks, update, special_var, symtab_entry_setval}
use layla_shell.Symtab.Keeps.{update_at}
use layla_shell.Symtab.Stack.{
  Symtab, World, blank_entry, add_to_any_symtab, renew, refresh, look_at, do_lookup, first_of,
  search_tables, get_symtab_entry, copy_from, add_local, add_in, add_to_symtab,
}
use layla_shell.Symtab.Scope.{added_view, search_found, add_local-shape}
use layla_shell.Prelude.Bytes.{Bytes}
use layla_shell.Prelude.{
  ℕ, ◌≡◌, refl, Bool, false, ◌&&◌, Option, none, some, List, ◌∷◌, ltb, length, if◌then◌else◌,
  Option-cases, sym, ap, subst, ◌∙◌, Bool-cases, inl, inr,
}

module _ (hooks : Hooks) (get_special_var : Bytes → Option Bytes → Option Bytes) where
  get-found :
      (str : Bytes) (w : World) (st : Symtab) (tables : List Symtab) (a : ℕ)
      → w.tables ≡ st ∷ tables
      → view st.items str ≡ some a
      → (get_symtab_entry hooks get_special_var str w).0 ≡ some a
  unfolding get_symtab_entry
  get-found str w st tables a e h =
      ap (λ ts. (search_tables hooks get_special_var str ts w).0) e
      ∙ ap (λ (r : Option ℕ × World). r.0) (search_found hooks get_special_var str st tables w a h)

  add_in-found :
      (inherit : Bool) (symbol : Bytes) (st : Symtab) (tables : List Symtab) (w : World) (a : ℕ)
      → view st.items symbol ≡ some a
      → add_in hooks get_special_var inherit symbol (st ∷ tables) w
        ≡ (some a, record w { vars = refresh hooks get_special_var a w.vars })
  unfolding add_in do_lookup first_of look_at
  add_in-found inherit symbol st tables w a h =
      ap
        (λ (f : Option ℕ).
          first_of hooks get_special_var (f, look_at hooks get_special_var f w)
            (add_local hooks get_special_var inherit symbol st tables w))
        h

  add_in-new :
      (inherit : Bool) (symbol : Bytes) (st : Symtab) (tables : List Symtab) (w : World)
      → view st.items symbol ≡ none
      → add_in hooks get_special_var inherit symbol (st ∷ tables) w
        ≡ add_local hooks get_special_var inherit symbol st tables w
  unfolding add_in do_lookup first_of look_at
  add_in-new inherit symbol st tables w h =
      ap
        (λ (f : Option ℕ).
          first_of hooks get_special_var (f, look_at hooks get_special_var f w)
            (add_local hooks get_special_var inherit symbol st tables w))
        h

  add_local-next :
      (inherit : Bool) (symbol : Bytes) (st : Symtab) (tables : List Symtab) (w : World)
      → (add_local hooks get_special_var inherit symbol st tables w).0 ≡ some w.next
  unfolding add_local add_to_any_symtab
  add_local-next inherit symbol st tables w = elim (Bool-cases (inherit && ltb 0 (length tables))) [
    | inl e ↦ rw e refl
    | inr e ↦ rw e refl
  ]

  add_in-get :
      (inherit : Bool) (symbol : Bytes) (st : Symtab) (tables : List Symtab) (w : World)
      → w.tables ≡ st ∷ tables
      → IsValid st.items
      → let r = add_in hooks get_special_var inherit symbol (st ∷ tables) w in
        (get_symtab_entry hooks get_special_var symbol r.1).0 ≡ r.0
  add_in-get inherit symbol st tables w e valid = elim (Option-cases (view st.items symbol)) [
    | inl fresh ↦
        let r = add_local hooks get_special_var inherit symbol st tables w in
        let st' = (add_to_any_symtab symbol st w).1 in
        let tables_eq : r.1.tables ≡ st' ∷ tables =
          ap (λ x. x.0) (add_local-shape hooks get_special_var inherit symbol st tables w) in
        rw (add_in-new inherit symbol st tables w fresh, add_local-next inherit symbol st tables w)
          (get-found symbol r.1 st' tables w.next tables_eq
            (added_view hooks get_special_var symbol st w valid fresh))
    | inr (a, h) ↦ rw (add_in-found inherit symbol st tables w a h) (
        get-found symbol (record w { vars = refresh hooks get_special_var a w.vars }) st tables a e
          h)
  ]

  -- Let the local table be well formed, and the name not empty. Then add_to_symtab() returns the entry
  -- that get_symtab_entry() finds under that name afterwards, whether or not the name was in the table.
  pub add_to_symtab-get :
      (inherit : Bool) (c : ℕ) (name : Bytes) (st : Symtab) (tables : List Symtab) (w : World)
      → w.tables ≡ st ∷ tables
      → IsValid st.items
      → let r = add_to_symtab hooks get_special_var inherit (c ∷ name) w in
        (get_symtab_entry hooks get_special_var (c ∷ name) r.1).0 ≡ r.0
  unfolding add_to_symtab
  add_to_symtab-get inherit c name st tables w e valid =
      let entry_of =
        λ (r : Option ℕ × World). get_symtab_entry hooks get_special_var (c ∷ name) r.1 in
      subst
        (λ ts. let r = add_in hooks get_special_var inherit (c ∷ name) ts w in (entry_of r).0 ≡ r.0)
        (sym e) (add_in-get inherit (c ∷ name) st tables w e valid)

  -- the value of an entry that is new
  refresh-plain :
      (a : ℕ) (vars : Vars)
      → (vars a).flags special_var ≡ false
      → refresh hooks get_special_var a vars ≡ vars
  unfolding refresh
  refresh-plain a vars plain =
      ap
        (λ b.
          if b
          then renew hooks get_special_var a (get_special_var (vars a).name (vars a).val) vars
          else vars)
        plain

  setval-none : (a : ℕ) (vars : Vars) → (symtab_entry_setval hooks a none vars a).val ≡ none
  unfolding symtab_entry_setval
  setval-none a vars = ap (λ (e : Entry). e.val) (update_at a _ vars)

  copy_from_self :
      (a : ℕ) (w : World)
      → (w.vars a).val ≡ none
      → ((copy_from hooks get_special_var a (some a, w)).vars a).val ≡ none
  unfolding copy_from
  copy_from_self a w h =
      let flagged = update a (record (w.vars a) { flags = (w.vars a).flags }) w.vars in
      let no_val : (flagged a).val ≡ none = ap (λ (e : Entry). e.val) (update_at a _ w.vars) ∙ h in
      ap (λ (v : Option Bytes). (symtab_entry_setval hooks a v flagged a).val) no_val
      ∙ setval-none a flagged

  added_entry :
      (symbol : Bytes) (st : Symtab) (w : World)
      → (add_to_any_symtab symbol st w).2.vars w.next ≡ blank_entry symbol
  unfolding add_to_any_symtab
  added_entry symbol st w = update_at w.next (blank_entry symbol) w.vars

  get-added :
      (symbol : Bytes) (st : Symtab) (tables : List Symtab) (w : World)
      → IsValid st.items
      → view st.items symbol ≡ none
      → let added = add_to_any_symtab symbol st w in
        let w2 = record added.2 { tables = added.1 ∷ tables } in
        get_symtab_entry hooks get_special_var symbol w2 ≡ (some w.next, w2)
  unfolding get_symtab_entry
  get-added symbol st tables w valid fresh =
      let added = add_to_any_symtab symbol st w in
      let w2 = record added.2 { tables = added.1 ∷ tables } in
      let plain : (added.2.vars w.next).flags special_var ≡ false =
        ap (λ (e : Entry). e.flags special_var) (added_entry symbol st w)
        ∙ (unfold blank_entry in refl) in
      search_found hooks get_special_var symbol added.1 tables w2 w.next
        (added_view hooks get_special_var symbol st w valid fresh)
      ∙ ap (λ (v : Vars). (some w.next, record w2 { vars = v }))
          (refresh-plain w.next added.2.vars plain)

  add_local-val :
      (inherit : Bool) (symbol : Bytes) (st : Symtab) (tables : List Symtab) (w : World)
      → IsValid st.items
      → view st.items symbol ≡ none
      → ((add_local hooks get_special_var inherit symbol st tables w).1.vars w.next).val ≡ none
  unfolding add_local add_to_any_symtab
  add_local-val inherit symbol st tables w valid fresh =
      let added = add_to_any_symtab symbol st w in
      let w2 = record added.2 { tables = added.1 ∷ tables } in
      let no_val : (w2.vars w.next).val ≡ none =
        ap (λ (e : Entry). e.val) (added_entry symbol st w) ∙ (unfold blank_entry in refl) in
      elim (Bool-cases (inherit && ltb 0 (length tables))) [
        | inl e ↦ rw e (
            ap
              (λ (r : Option ℕ × World).
                ((copy_from hooks get_special_var w.next r).vars w.next).val)
              (get-added symbol st tables w valid fresh)
            ∙ copy_from_self w.next w2 no_val)
        | inr e ↦ rw e no_val
      ]

  add_in-no_val :
      (inherit : Bool) (symbol : Bytes) (st : Symtab) (tables : List Symtab) (w : World)
      → IsValid st.items
      → view st.items symbol ≡ none
      → let r = add_in hooks get_special_var inherit symbol (st ∷ tables) w in
        (r.0 ≡ some w.next) × ((r.1.vars w.next).val ≡ none)
  add_in-no_val inherit symbol st tables w valid fresh =
      rw (add_in-new inherit symbol st tables w fresh) (
        add_local-next inherit symbol st tables w,
        add_local-val inherit symbol st tables w valid fresh,
      )

  -- Let the local table be well formed, and the name not empty and not in it. Then add_to_symtab() adds
  -- an entry with no value, at the next free address, with the option to inherit from outer variables
  -- and without: the option never takes effect.
  pub add_to_symtab-no_val :
      (inherit : Bool) (c : ℕ) (name : Bytes) (st : Symtab) (tables : List Symtab) (w : World)
      → w.tables ≡ st ∷ tables
      → IsValid st.items
      → view st.items (c ∷ name) ≡ none
      → let r = add_to_symtab hooks get_special_var inherit (c ∷ name) w in
        (r.0 ≡ some w.next) × ((r.1.vars w.next).val ≡ none)
  unfolding add_to_symtab
  add_to_symtab-no_val inherit c name st tables w e valid fresh =
      subst
        (λ ts.
          let r = add_in hooks get_special_var inherit (c ∷ name) ts w in
          (r.0 ≡ some w.next) × ((r.1.vars w.next).val ≡ none))
        (sym e) (add_in-no_val inherit (c ∷ name) st tables w valid fresh)
