-- ===== src/Symtab/Remove.antt =====
-- Removal of entries, and merge_global(), of src/symtab/symtab_hash.c. An entry is removed by its address;
-- its bucket is that of its name. The memory of a removed entry is not reused.
use layla_shell.HashTable.Defs.{Bucket, bucket_of, set_bucket}
use layla_shell.Symtab.Entry.{
  cmd_export, local, Flags, clear, Vars, Hooks, update, symtab_entry_setval,
}
use layla_shell.Symtab.Stack.{Symtab, World, add_to_symtab}
use layla_shell.Prelude.Bytes.{Bytes}
use layla_shell.Prelude.{
  ℕ, ◌-◌, Bool, true, false, ◌||◌, Option, none, some, List, [], ◌∷◌, ltb, ◌==◌, if◌then◌else◌,
}
use mathlib.Core.Option

-- the loop over a bucket; `none` if the entry is not in it
unfoldable pub unlink_entry : ℕ → Bucket ℕ → Option (Bucket ℕ)
unlink_entry entry [] = none
unlink_entry entry ((name, e) ∷ b) =
    if e == entry
    then some b
    else Option.map (λ (rest : Bucket ℕ). (name, e) ∷ rest) (unlink_entry entry b)

unfoldable pub put_back : Symtab → Bytes → Option (Bucket ℕ) → Bool × Symtab
put_back st name none = (false, st)
put_back st name (some b) =
    let items = set_bucket st.items name b in
    (true, record st { items = record items { used = items.used - 1 } })

unfoldable pub rem_from_symtab : ℕ → Vars → Symtab → Bool × Symtab
unfolding unlink_entry put_back
rem_from_symtab entry vars st =
    let name = (vars entry).name in put_back st name (unlink_entry entry (bucket_of st.items name))

-- the loop from the local table down
unfoldable pub rem_from_tables : ℕ → Vars → List Symtab → List Symtab
unfolding rem_from_symtab
rem_from_tables entry vars [] = []
rem_from_tables entry vars (st ∷ tables) =
    let rest = rem_from_tables entry vars tables in
    let (done, st') = rem_from_symtab entry vars st in if done then st' ∷ tables else st' ∷ rest

unfoldable pub rem_from_any_symtab : ℕ → World → World
unfolding rem_from_tables
rem_from_any_symtab entry w = record w { tables = rem_from_tables entry w.vars w.tables }

-- the flags that a merged entry leaves
unfoldable pub merge_flags : Bool → Flags → Flags → Flags
unfolding clear
merge_flags global_scope flags new =
    let exported = clear cmd_export (λ f. flags f || new f) in
    if global_scope then clear local exported else exported

module _ (hooks : Hooks) (get_special_var : Bytes → Option Bytes → Option Bytes) where
  -- an entry is merged into the one that add_to_symtab() answers; the source does not expect NULL there
  unfoldable pub merge_into : Bool → ℕ → Option ℕ × World → World
  unfolding merge_flags
  merge_into global_scope entry (none, w) = w
  merge_into global_scope entry (some gentry, w) =
      let vars = symtab_entry_setval hooks gentry (w.vars entry).val w.vars in
      let flags = merge_flags global_scope (vars gentry).flags (vars entry).flags in
      record w { vars = update gentry (record (vars gentry) { flags = flags }) vars }

  unfoldable pub merge_entry : Bool → Bool → ℕ → World → World
  unfolding merge_into
  merge_entry inherit global_scope entry w =
      if (w.vars entry).flags local
      then w
      else merge_into global_scope entry
          (add_to_symtab hooks get_special_var inherit (w.vars entry).name w)

  unfoldable pub merge_bucket : Bool → Bool → Bucket ℕ → World → World
  unfolding merge_entry
  merge_bucket inherit global_scope [] w = w
  merge_bucket inherit global_scope ((name, entry) ∷ b) w =
      merge_bucket inherit global_scope b (merge_entry inherit global_scope entry w)

  unfoldable pub merge_buckets : Bool → Bool → List (Bucket ℕ) → World → World
  unfolding merge_bucket
  merge_buckets inherit global_scope [] w = w
  merge_buckets inherit global_scope (b ∷ items) w =
      merge_buckets inherit global_scope items (merge_bucket inherit global_scope b w)

  unfoldable pub merge_global : Bool → Bool → Symtab → World → World
  unfolding merge_buckets
  merge_global inherit global_scope symtab w =
      if ltb 0 symtab.items.used then merge_buckets inherit global_scope symtab.items.items w else w
