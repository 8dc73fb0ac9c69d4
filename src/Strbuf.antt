-- ===== src/Strbuf.antt =====
-- src/strbuf.c: the pool of shared strings, with a count of references to each. The pool is the
-- table `str_hashes`, `none` before it is made; `mem` says whether malloc() has the memory.
pub mod Refs
pub mod History
use layla_shell.HashTable.Defs.{
  Hashtab, new_hashtable, get_hash_item, set_bucket, assign_item, bucket_of, rem_hash_item,
  add_hash_itemb,
}
use layla_shell.Prelude.Bytes.{Bytes}
use layla_shell.Prelude.{
  ℕ, ◌+◌, ◌-◌, Bool, true, false, Option, none, some, [], ◌∷◌, ◌==◌, leb, drop, take, if◌then◌else◌,
}

-- what a `char *` of a caller points to: one of the two dummy strings, the name of a pool entry, or
-- a block of its own
pub data StrPtr : Type 0 where
  null empty_str newline_str : StrPtr
  pooled : Bytes → StrPtr
  malloced : Bytes → StrPtr

abbrev pub Pool : Type 0
Pool = Option (Hashtab ℕ)

unfoldable pub init_str_hashtable : Bool → Pool
init_str_hashtable mem = new_hashtable mem

-- `__get_malloced_str`
unfoldable pub copy_str : Bool → Bytes → StrPtr
copy_str mem str = if mem then malloced str else null

-- `entry->refs` of a string is written
unfoldable pub set_refs : Hashtab ℕ → Bytes → ℕ → Hashtab ℕ
set_refs t str refs = set_bucket t str (assign_item str refs (bucket_of t str))

-- what is returned after add_hash_itemb()
unfoldable pub entry_ptr : Bool → Bytes → Option ℕ → StrPtr
entry_ptr mem str (some refs) = pooled str
entry_ptr mem str none = copy_str mem str

-- the string has an entry, whose count goes up, or it gets one
unfoldable pub ref_entry : Bool → Hashtab ℕ → Bytes → Option ℕ → StrPtr × Pool
ref_entry mem t str (some refs) = (pooled str, some (set_refs t str (refs + 1)))
ref_entry mem t str none =
    let (entry, pool) = add_hash_itemb mem (some t) (some str) 1 in (entry_ptr mem str entry, pool)

unfoldable pub search_pool : Bool → Pool → Bytes → StrPtr × Pool
search_pool mem none str = (copy_str mem str, none)
search_pool mem (some t) str = ref_entry mem t str (get_hash_item (some t) (some str))

unfoldable pub get_malloced_str : Bool → Pool → Option Bytes → StrPtr × Pool
get_malloced_str mem pool none = (null, pool)
get_malloced_str mem pool (some []) = (empty_str, pool)
get_malloced_str mem pool (some (c ∷ [])) =
    if c == b'\n' then (newline_str, pool) else search_pool mem pool (c ∷ [])
get_malloced_str mem pool (some (c ∷ d ∷ s)) = search_pool mem pool (c ∷ d ∷ s)

-- the copy of `length` bytes from `start` on
unfoldable pub get_malloced_strl : Bool → Pool → Option Bytes → ℕ → ℕ → StrPtr × Pool
get_malloced_strl mem pool none start length = (null, pool)
get_malloced_strl mem pool (some str) start length =
    get_malloced_str mem pool (some (take length (drop start str)))

-- `entry->refs--`, and the removal of an entry that nobody holds
unfoldable pub drop_ref : Hashtab ℕ → Bytes → Option ℕ → Hashtab ℕ
drop_ref t str none = t
drop_ref t str (some refs) =
    if leb (refs - 1) 0 then rem_hash_item t str else set_refs t str (refs - 1)

unfoldable pub free_str_of : Pool → Bytes → Pool
free_str_of none str = none
free_str_of (some t) str = some (drop_ref t str (get_hash_item (some t) (some str)))

unfoldable pub free_malloced_str : Pool → StrPtr → Pool
free_malloced_str pool null = pool
free_malloced_str pool empty_str = pool
free_malloced_str pool newline_str = pool
free_malloced_str pool (pooled str) = free_str_of pool str
free_malloced_str pool (malloced str) = free_str_of pool str
