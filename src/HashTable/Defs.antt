-- ===== src/HashTable/Defs.antt =====
-- The table of src/symtab/string_hash.c. The buckets are association lists, newest entry first. A
-- NULL table, key or value is `none`; `mem` says whether malloc() has the memory for an entry.
use layla_shell.HashTable.Fnv.{fnv1a, fnv1a_seed}
use layla_shell.Strings.Search.{is_same_str}
use layla_shell.Prelude.Bytes.{Bytes}
use layla_shell.Prelude.{
  ℕ, ◌+◌, ◌-◌, ◌%◌, Bool, true, false, Option, none, some, List, [], ◌∷◌, get_or, set, replicate,
  if◌then◌else◌,
}

abbrev pub Bucket {ℓ} : Type ℓ → Type ℓ
Bucket V = List (Bytes × V)

pub record Hashtab {ℓ} (V : Type ℓ) : Type ℓ where
  pub size : ℕ
  pub used : ℕ
  pub items : List (Bucket V)

unfoldable pub new_hashtable_sz {ℓ} : {V : Type ℓ} → Bool → ℕ → Option (Hashtab V)
new_hashtable_sz false size = none
new_hashtable_sz true size = some (record { size = size; used = 0; items = replicate size [] })

abbrev pub hashtable_init_size : ℕ
hashtable_init_size = 256

unfoldable pub new_hashtable {ℓ} : {V : Type ℓ} → Bool → Option (Hashtab V)
unfolding new_hashtable_sz
new_hashtable mem = new_hashtable_sz mem hashtable_init_size

module _ {ℓ} {V : Type ℓ} where
  unfoldable pub calc_hash : Option (Hashtab V) → Option Bytes → ℕ
  calc_hash (some table) (some text) = fnv1a (some text) fnv1a_seed % table.size
  calc_hash _ _ = 0

  -- the loop over a bucket that looks for a key
  unfoldable pub find_item : Bytes → Bucket V → Option V
  find_item key [] = none
  find_item key ((name, v) ∷ b) = if is_same_str name key then some v else find_item key b

  -- the entry of the key is given another value in place
  unfoldable pub assign_item : Bytes → V → Bucket V → Bucket V
  assign_item key v [] = []
  assign_item key v ((name, w) ∷ b) =
      if is_same_str name key then (name, v) ∷ b else (name, w) ∷ assign_item key v b

  -- the loop that unlinks the first entry of the key
  unfoldable pub unlink_item : Bytes → Bucket V → Bucket V
  unlink_item key [] = []
  unlink_item key ((name, v) ∷ b) =
      if is_same_str name key then b else (name, v) ∷ unlink_item key b

  unfoldable pub bucket_of : Hashtab V → Bytes → Bucket V
  bucket_of table key = get_or table.items (calc_hash (some table) (some key)) []

  unfoldable pub set_bucket : Hashtab V → Bytes → Bucket V → Hashtab V
  set_bucket table key b = record table {
    items = set table.items (calc_hash (some table) (some key)) b;
  }

  unfoldable pub get_hash_item : Option (Hashtab V) → Option Bytes → Option V
  get_hash_item (some table) (some key) = find_item key (bucket_of table key)
  get_hash_item _ _ = none

  -- a new entry goes to the start of its bucket
  unfoldable pub add_entry : Bool → Hashtab V → Bytes → V → Option V × Hashtab V
  add_entry false table key v = (none, table)
  add_entry true table key v =
      let t = set_bucket table key ((key, v) ∷ bucket_of table key) in
      (some v, record t { used = t.used + 1 })

  unfoldable pub rem_entry : Option V → Hashtab V → Bytes → Hashtab V
  rem_entry none table key = table
  rem_entry (some v) table key =
      let t = set_bucket table key (unlink_item key (bucket_of table key)) in
      record t { used = t.used - 1 }

  unfoldable pub rem_hash_item : Hashtab V → Bytes → Hashtab V
  rem_hash_item table key = rem_entry (get_hash_item (some table) (some key)) table key

-- an entry that has the value already is not touched
unfoldable pub update_val :
    Bool → Hashtab Bytes → Bytes → Bytes → Option Bytes → Option Bytes × Hashtab Bytes
update_val mem table key value (some old) =
    if is_same_str old value
    then (some old, table)
    else (some value, set_bucket table key (assign_item key value (bucket_of table key)))
update_val mem table key value none = add_entry mem table key value

unfoldable pub add_hash_item :
    Bool
    → Option (Hashtab Bytes)
    → Option Bytes
    → Option Bytes
    → Option Bytes × Option (Hashtab Bytes)
add_hash_item mem (some table) (some key) (some value) =
    let (entry, t) = update_val mem table key value (get_hash_item (some table) (some key)) in
    (entry, some t)
add_hash_item mem table key value = (none, table)

unfoldable pub update_refs : Bool → Hashtab ℕ → Bytes → ℕ → Option ℕ → Option ℕ × Hashtab ℕ
update_refs mem table key value (some old) =
    (some value, set_bucket table key (assign_item key value (bucket_of table key)))
update_refs mem table key value none = add_entry mem table key value

unfoldable pub add_hash_itemb :
    Bool → Option (Hashtab ℕ) → Option Bytes → ℕ → Option ℕ × Option (Hashtab ℕ)
add_hash_itemb mem (some table) (some key) value =
    let (entry, t) = update_refs mem table key value (get_hash_item (some table) (some key)) in
    (entry, some t)
add_hash_itemb mem table key value = (none, table)
