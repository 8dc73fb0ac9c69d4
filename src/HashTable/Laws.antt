-- ===== src/HashTable/Laws.antt =====
-- The table of src/symtab/string_hash.c refines a finite map.
use layla_shell.HashTable.Defs.{
  Hashtab, Bucket, calc_hash, find_item, assign_item, unlink_item, bucket_of, set_bucket,
  get_hash_item, add_entry, rem_entry, rem_hash_item, update_val, add_hash_item, update_refs,
  add_hash_itemb, new_hashtable_sz,
}
use layla_shell.HashTable.Bucket.{
  Distinct, find-assign, find-unlink, length-assign, length-unlink, assign-Distinct,
  unlink-Distinct,
}
use layla_shell.HashTable.Invariant.{
  IsValid, view, home, bucket-Distinct, bucket-le-used, view-set_bucket, set_bucket-IsValid,
  total-replicate,
}
use layla_shell.Strings.Search.{is_same_str, is_same_str_iff}
use layla_shell.Prelude.Bytes.{Bytes}
use layla_shell.Prelude.{
  ℕ, ◌+◌, ◌-◌, ◌<◌, ◌≡◌, refl, true, Option, none, some, [], ◌∷◌, arith, ◌==◌, length,
  length-replicate, get_or-replicate, if◌then◌else◌, Bool-cases, Option-cases, inl, inr, ==_refl,
  ==_iff, replicate, sym, ap, ◌∙◌,
}

module _ {ℓ} {V : Type ℓ} where
  abbrev pub found : Option V → ℕ
  found none = 0
  found (some v) = 1

  -- `t'` is `t` with the key set to `o`, or cleared
  pub record Updates (t : Hashtab V) (k : Bytes) (o : Option V) (t' : Hashtab V) : Type ℓ where
    pub valid : IsValid t'
    pub views : (j : Bytes) → view t' j ≡ (if is_same_str k j then o else view t j)
    pub used : t'.used + found (view t k) ≡ t.used + found o

  -- equal keys live in one bucket
  home_congr :
      (t : Hashtab V) (k j : Bytes) → is_same_str k j ≡ true → (home t k == home t j) ≡ true
  home_congr t k j e = let same : k ≡ j = (is_same_str_iff k j).0 e in rw same (==_refl (home t j))

  bucket_of_congr :
      (t : Hashtab V) (k j : Bytes) → (home t k == home t j) ≡ true → bucket_of t k ≡ bucket_of t j
  unfolding bucket_of
  bucket_of_congr t k j e = let same : home t k ≡ home t j = (==_iff _ _).0 e in rw same

  view_used : (t : Hashtab V) (n : ℕ) (j : Bytes) → view (record t { used = n }) j ≡ view t j
  unfolding get_hash_item bucket_of calc_hash
  view_used t n j = refl

  view-bucket_of : (t : Hashtab V) (j : Bytes) → view t j ≡ find_item j (bucket_of t j)
  unfolding get_hash_item
  view-bucket_of t j = refl

  module _ (t : Hashtab V) (valid : IsValid t) (k : Bytes) where
    -- all three writes replace the bucket of the key
    bucket-Updates :
        (o : Option V) (b : Bucket V) (used : ℕ)
        → Distinct b
        → used + length (bucket_of t k) ≡ t.used + length b
        → used + found (view t k) ≡ t.used + found o
        → ((j : Bytes)
            → find_item j b ≡ (if is_same_str k j then o else find_item j (bucket_of t k)))
        → Updates t k o (record (set_bucket t k b) { used = used })
    bucket-Updates o b used d size count finds = record {
      valid = set_bucket-IsValid t valid k b used d size;
      used = count;
      views = λ j.
          view_used (set_bucket t k b) used j
          ∙ view-set_bucket t valid k b j
          ∙ ground (arith, finds j, home_congr t k j, bucket_of_congr t k j, view-bucket_of t j);
    }

    pub assign-Updates :
        (v old : V)
        → view t k ≡ some old
        → Updates t k (some v) (set_bucket t k (assign_item k v (bucket_of t k)))
    unfolding set_bucket
    assign-Updates v old e =
        let at_k : find_item k (bucket_of t k) ≡ some old = cc (view-bucket_of t k) in
        bucket-Updates (some v) (assign_item k v (bucket_of t k)) t.used
          (assign-Distinct k v (bucket_of t k) (bucket-Distinct t k valid))
          (omega (arith, length-assign k v (bucket_of t k))) (rw e)
          (λ j. find-assign k j v old (bucket_of t k) at_k)

    pub add_entry-Updates :
        (v : V) → view t k ≡ none → Updates t k (some v) (add_entry true t k v).1
    unfolding add_entry set_bucket
    add_entry-Updates v e =
        let at_k : find_item k (bucket_of t k) ≡ none = cc (view-bucket_of t k) in
        bucket-Updates (some v) ((k, v) ∷ bucket_of t k) (t.used + 1)
          (at_k, bucket-Distinct t k valid) (omega arith) (rw e (omega arith))
          (λ j. unfold find_item in refl)

    unlink-Updates : (old : V) → view t k ≡ some old → Updates t k none (rem_entry (some old) t k)
    unfolding rem_entry set_bucket
    unlink-Updates old e =
        let at_k : find_item k (bucket_of t k) ≡ some old = cc (view-bucket_of t k) in
        let d = bucket-Distinct t k valid in
        let most = bucket-le-used t k valid in
        let shorter = length-unlink k old (bucket_of t k) at_k in
        bucket-Updates none (unlink_item k (bucket_of t k)) (t.used - 1)
          (unlink-Distinct k (bucket_of t k) d) (omega arith) (rw e (omega arith))
          (λ j. find-unlink k j (bucket_of t k) d)

    same-Updates : (v : V) → view t k ≡ some v → Updates t k (some v) t
    same-Updates v e = record {
      valid = valid;
      used = rw e;
      views = λ j. ground (arith, is_same_str_iff k j);
    }

    absent-Updates : view t k ≡ none → Updates t k none t
    absent-Updates e = record {
      valid = valid;
      used = rw e;
      views = λ j. ground (arith, is_same_str_iff k j);
    }

    -- rem_hash_item() on a well-formed table keeps it well formed and clears the key, and no other;
    -- `used` falls by one if the key was there.
    pub rem_hash_item-Updates : Updates t k none (rem_hash_item t k)
    unfolding rem_hash_item rem_entry
    rem_hash_item-Updates = elim (Option-cases (view t k)) [
      | inl e ↦ rw e (absent-Updates e)
      | inr (old, e) ↦ rw e (unlink-Updates old e)
    ]

-- add_hash_item() of a key and a value to a well-formed table, with the memory there, returns the
-- entry with that value; the table stays well formed and maps the key to the value, and every other
-- key as before; `used` grows by one if the key is new.
pub add_hash_item-Updates :
    (t : Hashtab Bytes) (k v : Bytes)
    → IsValid t
    → (t' : Hashtab Bytes) × (add_hash_item true (some t) (some k) (some v) ≡ (some v, some t'))
      × Updates t k (some v) t'
unfolding add_hash_item update_val
add_hash_item-Updates t k v valid = elim (Option-cases (view t k)) [
  | inl e ↦
      ((add_entry true t k v).1, rw e (unfold add_entry in refl), add_entry-Updates t valid k v e)
  | inr (old, e) ↦ elim (Bool-cases (is_same_str old v)) [
    | inl same ↦
        let eq : old ≡ v = (is_same_str_iff old v).0 same in
        (t, rw (e, same, eq), same-Updates t valid k v (e ∙ ap some eq))
    | inr other ↦ (_, rw (e, other), assign-Updates t valid k v old e)
  ]
]

-- add_hash_itemb() does the same for a count of references.
pub add_hash_itemb-Updates :
    (t : Hashtab ℕ) (k : Bytes) (refs : ℕ)
    → IsValid t
    → (t' : Hashtab ℕ) × (add_hash_itemb true (some t) (some k) refs ≡ (some refs, some t'))
      × Updates t k (some refs) t'
unfolding add_hash_itemb update_refs
add_hash_itemb-Updates t k v valid = elim (Option-cases (view t k)) [
  | inl e ↦
      ((add_entry true t k v).1, rw e (unfold add_entry in refl), add_entry-Updates t valid k v e)
  | inr (old, e) ↦ (_, rw e, assign-Updates t valid k v old e)
]

blank-IsEmpty :
    (V : Type 0) (size : ℕ)
    → 0 < size
    → let t : Hashtab V = record { size = size; used = 0; items = replicate size [] } in
      IsValid t × ((k : Bytes) → view t k ≡ none)
blank-IsEmpty V size h = (
  record {
    positive = h;
    width = length-replicate size [];
    counted = sym (total-replicate V size);
    distinct = λ i. rw get_or-replicate tt;
  },
  λ k. unfold get_hash_item bucket_of find_item in rw get_or-replicate,
)

-- A new table is well formed, if its size is positive, and maps no key.
pub new_hashtable_sz-IsEmpty :
    (V : Type 0) (size : ℕ) (t : Hashtab V)
    → 0 < size
    → new_hashtable_sz true size ≡ some t
    → IsValid t × ((k : Bytes) → view t k ≡ none)
unfolding new_hashtable_sz
new_hashtable_sz-IsEmpty V size t h e =
    let same : record { size = size; used = 0; items = replicate size [] } ≡ t = cc in
    rw (← same) (blank-IsEmpty V size h)
