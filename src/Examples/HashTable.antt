-- ===== src/Examples/HashTable.antt =====
-- Inputs for the hash table and the string pool.
use layla_shell.HashTable.Fnv.{fnv1a, fnv1a_seed, fnv1a-append}
use layla_shell.HashTable.Defs.{
  Hashtab, new_hashtable_sz, calc_hash, find_item, assign_item, unlink_item, bucket_of, set_bucket,
  get_hash_item, add_entry, rem_entry, rem_hash_item, update_val, add_hash_item,
}
use layla_shell.HashTable.Invariant.{IsValid, view}
use layla_shell.HashTable.Laws.{
  Updates, add_hash_item-Updates, rem_hash_item-Updates, new_hashtable_sz-IsEmpty,
}
use layla_shell.Strbuf.History.{PoolOp, get, free, run_ops, tally, history-Counts}
use layla_shell.Strbuf.Refs.{Counts}
use layla_shell.Strbuf.{init_str_hashtable}
use layla_shell.Strings.Search.{is_same_str}
use layla_shell.Prelude.Bytes.{Bytes, codes}
use layla_shell.Prelude.{
  ℕ, ◌<◌, ◌≡◌, refl, true, none, some, List, [], ◌∷◌, ◌++◌, ◌^◌, arith, replicate,
}

program : Unit {0}
unfolding fnv1a new_hashtable_sz calc_hash find_item assign_item unlink_item bucket_of set_bucket
    get_hash_item add_entry rem_entry rem_hash_item update_val add_hash_item is_same_str
program = tt

abbrev empty_table : Hashtab Bytes
empty_table = record { size = 4; used = 0; items = replicate 4 [] }

empty_table-IsEmpty : IsValid empty_table × ((k : Bytes) → view empty_table k ≡ none)
empty_table-IsEmpty =
    new_hashtable_sz-IsEmpty Bytes 4 empty_table (omega arith) (unfold program in refl)

fnv1a_runs : fnv1a (some (codes "a")) fnv1a_seed ≡ 0xe40c_292c
unfolding program
fnv1a_runs = refl

fnv1a-append_example :
    (fnv1a (some (codes "PA" ++ codes "TH")) fnv1a_seed
      ≡ fnv1a (some (codes "TH")) (fnv1a (some (codes "PA")) fnv1a_seed))
    × (fnv1a (some (codes "PA")) fnv1a_seed < 2 ^ 32)
fnv1a-append_example = fnv1a-append (codes "PA") (codes "TH") fnv1a_seed (omega arith)

add_hash_item-Updates_example :
    (t' : Hashtab Bytes) × (add_hash_item true
        (some empty_table)
        (some (codes "ls"))
        (some (codes "/bin/ls"))
      ≡ (some (codes "/bin/ls"), some t'))
    × Updates empty_table (codes "ls") (some (codes "/bin/ls")) t'
add_hash_item-Updates_example =
    add_hash_item-Updates empty_table (codes "ls") (codes "/bin/ls") empty_table-IsEmpty.0

rem_hash_item-Updates_example :
    Updates empty_table (codes "ls") none (rem_hash_item empty_table (codes "ls"))
rem_hash_item-Updates_example = rem_hash_item-Updates empty_table empty_table-IsEmpty.0 (codes "ls")

abbrev uses : List PoolOp
uses = get (codes "PATH") ∷ get (codes "x") ∷ get (codes "PATH") ∷ free (codes "PATH") ∷ []

history-Counts_example :
    (t : Hashtab ℕ) × (run_ops (init_str_hashtable true) uses ≡ some t)
    × Counts (tally (λ _. 0) uses) t
history-Counts_example =
    history-Counts uses (tt, (refl, (tt, ((unfold program in omega arith), tt))))
