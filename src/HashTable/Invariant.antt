-- ===== src/HashTable/Invariant.antt =====
-- What makes a table well formed, and what replacing one bucket does to it.
use layla_shell.HashTable.Defs.{
  Bucket, Hashtab, calc_hash, find_item, bucket_of, set_bucket, get_hash_item,
}
use layla_shell.HashTable.Bucket.{Distinct}
use layla_shell.Prelude.Bytes.{Bytes}
use layla_shell.Prelude.{
  ℕ, zero, suc, ◌+◌, ◌<◌, ◌≤◌, ◌≡◌, refl, Option, some, List, [], ◌∷◌, arith, ◌==◌, length,
  length-set, get_or, get_or-set, set, if◌then◌else◌, Bool-cases, inl, inr, ◌∙◌, replicate,
}

module _ {ℓ} {V : Type ℓ} where
  abbrev pub total : List (Bucket V) → ℕ
  total [] = 0
  total (b ∷ bs) = length b + total bs

  -- `used` counts the entries, and no bucket holds a key twice
  pub record IsValid (t : Hashtab V) : Type ℓ where
    pub positive : 0 < t.size
    pub width : length t.items ≡ t.size
    pub counted : t.used ≡ total t.items
    pub distinct : (i : ℕ) → Distinct (get_or t.items i [])

  -- the table as a map from keys to values
  abbrev pub view : Hashtab V → Bytes → Option V
  view t key = get_hash_item (some t) (some key)

  abbrev pub home : Hashtab V → Bytes → ℕ
  home t key = calc_hash (some t) (some key)

  pub total-set :
      (bs : List (Bucket V)) (i : ℕ) (b : Bucket V)
      → i < length bs
      → total (set bs i b) + length (get_or bs i []) ≡ total bs + length b
  total-set [] i b h = elim h [ ]
  total-set (x ∷ bs) zero b h = omega arith
  total-set (x ∷ bs) (suc i) b h = omega (arith, total-set bs i b (omega arith))

  bucket-le-total : (bs : List (Bucket V)) (i : ℕ) → length (get_or bs i []) ≤ total bs
  bucket-le-total [] i = omega arith
  bucket-le-total (x ∷ bs) zero = omega arith
  bucket-le-total (x ∷ bs) (suc i) = omega (arith, bucket-le-total bs i)

  pub bucket-le-used : (t : Hashtab V) (k : Bytes) → IsValid t → length (bucket_of t k) ≤ t.used
  unfolding bucket_of
  bucket-le-used t k v = omega (arith, bucket-le-total t.items (home t k), v.counted)

  pub bucket-Distinct : (t : Hashtab V) (k : Bytes) → IsValid t → Distinct (bucket_of t k)
  unfolding bucket_of
  bucket-Distinct t k v = v.distinct (home t k)

  pub home-lt : (t : Hashtab V) (k : Bytes) → IsValid t → home t k < length t.items
  unfolding calc_hash
  home-lt t k v = omega arith

  module _ (t : Hashtab V) (valid : IsValid t) (k : Bytes) (b : Bucket V) where
    -- lookups see the new bucket under the keys that live in it
    pub view-set_bucket :
        (j : Bytes)
        → view (set_bucket t k b) j ≡ (if home t k == home t j then find_item j b else view t j)
    unfolding get_hash_item set_bucket bucket_of calc_hash
    view-set_bucket j =
        rw (get_or-set t.items (home t k) (home t j) b [] (home-lt t k valid))
          (elim (Bool-cases (home t k == home t j)) [ inl e ↦ rw e | inr e ↦ rw e ])

    pub set_bucket-Distinct : Distinct b → (i : ℕ) → Distinct (get_or (set_bucket t k b).items i [])
    unfolding set_bucket
    set_bucket-Distinct d i =
        rw (get_or-set t.items (home t k) i b [] (home-lt t k valid))
          (elim (Bool-cases (home t k == i)) [ inl e ↦ rw e d | inr e ↦ rw e (valid.distinct i) ])

    -- a new bucket keeps the table well formed, if `used` changes by as much as its length
    pub set_bucket-IsValid :
        (used : ℕ)
        → Distinct b
        → used + length (bucket_of t k) ≡ t.used + length b
        → IsValid (record (set_bucket t k b) { used = used })
    unfolding set_bucket bucket_of
    set_bucket-IsValid used d e = record {
      positive = valid.positive;
      width = length-set t.items (home t k) b ∙ valid.width;
      counted = omega (arith, total-set t.items (home t k) b (home-lt t k valid), valid.counted);
      distinct = unfold set_bucket in set_bucket-Distinct d;
    }

pub total-replicate {ℓ} : (V : Type ℓ) (n : ℕ) → total (replicate {A = Bucket V} n []) ≡ 0
total-replicate V zero = refl
total-replicate V (suc n) = omega (arith, total-replicate V n)
