-- ===== src/Strbuf/History.antt =====
-- Any history of the string pool.
use layla_shell.Strbuf.Refs.{
  IsPooled, Counts, hold, release, get_malloced_str-hold, free_malloced_str-release,
}
use layla_shell.HashTable.Defs.{Hashtab, new_hashtable, new_hashtable_sz}
use layla_shell.HashTable.Laws.{new_hashtable_sz-IsEmpty}
use layla_shell.Strbuf.{
  StrPtr, Pool, pooled, init_str_hashtable, get_malloced_str, free_malloced_str,
}
use layla_shell.Prelude.Bytes.{Bytes}
use layla_shell.Prelude.{ℕ, ◌<◌, ◌≡◌, refl, true, some, List, [], ◌∷◌, arith, ap, ◌∙◌, replicate}

-- what the shell does with the pool
pub data PoolOp : Type 0 where
  get free : Bytes → PoolOp

unfoldable pub run_op : Pool → PoolOp → Pool
run_op pool (get str) = (get_malloced_str true pool (some str)).1
run_op pool (free str) = free_malloced_str pool (pooled str)

unfoldable pub run_ops : Pool → List PoolOp → Pool
unfolding run_op
run_ops pool [] = pool
run_ops pool (op ∷ ops) = run_ops (run_op pool op) ops

-- only pooled strings are asked for, and only held ones are freed
abbrev pub IsLegal : (Bytes → ℕ) → List PoolOp → Type 0
IsLegal held [] = Unit
IsLegal held (get str ∷ ops) = IsPooled str × IsLegal (hold held str) ops
IsLegal held (free str ∷ ops) = (0 < held str) × IsLegal (release held str) ops

-- how often each string is held in the end
abbrev pub tally : (Bytes → ℕ) → List PoolOp → Bytes → ℕ
tally held [] = held
tally held (get str ∷ ops) = tally (hold held str) ops
tally held (free str ∷ ops) = tally (release held str) ops

run_ops-Counts :
    (held : Bytes → ℕ) (t : Hashtab ℕ) (ops : List PoolOp)
    → Counts held t
    → IsLegal held ops
    → (t' : Hashtab ℕ) × (run_ops (some t) ops ≡ some t') × Counts (tally held ops) t'
unfolding run_ops
run_ops-Counts held t [] c l = (t, refl, c)
run_ops-Counts held t (get str ∷ ops) c l =
    let (t1, run, c1) = get_malloced_str-hold held t str c l.0 in
    let (t2, rest, c2) = run_ops-Counts (hold held str) t1 ops c1 l.1 in
    (t2, ap (λ (r : StrPtr × Pool). run_ops r.1 ops) run ∙ rest, c2)
run_ops-Counts held t (free str ∷ ops) c l =
    let (t1, run, c1) = free_malloced_str-release held t str c l.0 in
    let (t2, rest, c2) = run_ops-Counts (release held str) t1 ops c1 l.1 in
    (t2, ap (λ (p : Pool). run_ops p ops) run ∙ rest, c2)

-- After any history of get_malloced_str() and free_malloced_str() on the pool that the shell starts
-- with, in which only pooled strings are asked for and only held ones are freed, the pool has an
-- entry exactly for the strings that are still held, with the number of their holders.
pub history-Counts :
    (ops : List PoolOp)
    → IsLegal (λ _. 0) ops
    → (t : Hashtab ℕ) × (run_ops (init_str_hashtable true) ops ≡ some t)
      × Counts (tally (λ _. 0) ops) t
unfolding init_str_hashtable new_hashtable new_hashtable_sz
history-Counts ops l =
    let t : Hashtab ℕ = record { size = 256; used = 0; items = replicate 256 [] } in
    let (valid, blank) = new_hashtable_sz-IsEmpty ℕ 256 t (omega arith) refl in
    run_ops-Counts (λ _. 0) t ops (record { valid = valid; refs = blank }) l
