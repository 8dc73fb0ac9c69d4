-- ===== src/Symtab/Unlink.antt =====
-- rem_from_symtab() of src/symtab/symtab_hash.c against the removal of string_hash.c, which goes by keys.
use layla_shell.HashTable.Defs.{
  Bucket, find_item, unlink_item, bucket_of, rem_entry, rem_hash_item, get_hash_item,
}
use layla_shell.HashTable.Invariant.{IsValid, view}
use layla_shell.HashTable.Laws.{Updates, rem_hash_item-Updates}
use layla_shell.Strings.Search.{is_same_str, is_same_str_iff}
use layla_shell.Symtab.Entry.{Vars}
use layla_shell.Symtab.Stack.{Symtab}
use layla_shell.Symtab.Remove.{unlink_entry, put_back, rem_from_symtab}
use layla_shell.Prelude.Bytes.{Bytes}
use layla_shell.Prelude.{
  ℕ, ◌≡◌, refl, sym, ap, ◌∙◌, Bool, true, false, none, some, [], ◌∷◌, ◌==◌, ==_iff, Bool-cases, inl,
  inr, arith, subst,
}
use mathlib.Core.Option

-- the names beside the addresses are those of the entries
unfoldable pub AreNamed : Vars → Bucket ℕ → Type 0
AreNamed vars [] = Unit {0}
AreNamed vars ((name, e) ∷ b) = ((vars e).name ≡ name) × AreNamed vars b

-- an entry with another name is another entry
other_entry :
    (vars : Vars) (entry e : ℕ) (name : Bytes)
    → (vars e).name ≡ name
    → is_same_str name (vars entry).name ≡ false
    → (e == entry) ≡ false
other_entry vars entry e name named differs = elim (Bool-cases (e == entry)) [
  | inr apart ↦ apart
  | inl equal ↦
      let at : e ≡ entry = (==_iff e entry).0 equal in
      let same : is_same_str name (vars entry).name ≡ true =
        (is_same_str_iff name (vars entry).name).1 (sym named ∙ ap (λ a. (vars a).name) at) in
      absurd (ground arith)
]

-- in such a bucket, the entry that a lookup finds is unlinked as its name would be
unlink_entry-unlink_item :
    (vars : Vars) (entry : ℕ) (b : Bucket ℕ)
    → AreNamed vars b
    → find_item (vars entry).name b ≡ some entry
    → unlink_entry entry b ≡ some (unlink_item (vars entry).name b)
unfolding AreNamed find_item unlink_entry unlink_item
unlink_entry-unlink_item vars entry [] h found = absurd (ground arith)
unlink_entry-unlink_item vars entry ((name, e) ∷ b) h found =
    elim (Bool-cases (is_same_str name (vars entry).name)) [
      | inl same ↦ let hit : (e == entry) ≡ true = ground arith in rw (hit, same) refl
      | inr differs ↦
          let later : find_item (vars entry).name b ≡ some entry = ground arith in
          rw (other_entry vars entry e name h.0 differs, differs)
            (ap (Option.map (λ (rest : Bucket ℕ). (name, e) ∷ rest))
              (unlink_entry-unlink_item vars entry b h.1 later))
    ]

-- the table that is left is that of rem_hash_item()
removed : Symtab → Bytes → Symtab
unfolding rem_hash_item
removed st name = record st { items = rem_hash_item st.items name }

rem_from_symtab-rem_hash_item :
    (vars : Vars) (st : Symtab) (entry : ℕ)
    → AreNamed vars (bucket_of st.items (vars entry).name)
    → view st.items (vars entry).name ≡ some entry
    → rem_from_symtab entry vars st ≡ (true, removed st (vars entry).name)
unfolding rem_from_symtab put_back removed rem_hash_item rem_entry get_hash_item
rem_from_symtab-rem_hash_item vars st entry named found =
    rw
      (
        unlink_entry-unlink_item vars entry (bucket_of st.items (vars entry).name) named found,
        found,
      )
      refl

-- In a well-formed table, whose bucket for the entry has its entries beside their names, rem_from_symtab()
-- of the entry that a lookup of its name finds returns 1: the name is not found any more, every other name
-- is found as before, the table stays well formed, and it has one entry less.
pub rem_from_symtab-Updates :
    (vars : Vars) (st : Symtab) (entry : ℕ)
    → IsValid st.items
    → AreNamed vars (bucket_of st.items (vars entry).name)
    → view st.items (vars entry).name ≡ some entry
    → let r = rem_from_symtab entry vars st in
      (r.0 ≡ true) × Updates st.items (vars entry).name none r.1.items
unfolding removed
rem_from_symtab-Updates vars st entry valid named found =
    let same = rem_from_symtab-rem_hash_item vars st entry named found in
    (
      ap (λ r. r.0) same,
      subst (λ (r : Bool × Symtab). Updates st.items (vars entry).name none r.1.items) (sym same)
          (rem_hash_item-Updates st.items valid (vars entry).name),
    )
