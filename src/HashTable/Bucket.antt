-- ===== src/HashTable/Bucket.antt =====
-- The three loops over a bucket, as operations on a finite map.
use layla_shell.HashTable.Defs.{Bucket, find_item, assign_item, unlink_item}
use layla_shell.Strings.Search.{is_same_str, is_same_str_iff}
use layla_shell.Prelude.Bytes.{Bytes}
use layla_shell.Prelude.{◌+◌, ◌≡◌, refl, none, some, [], ◌∷◌, arith, length, if◌then◌else◌}

module _ {ℓ} {V : Type ℓ} where
  -- no key stands twice
  abbrev pub Distinct : Bucket V → Type ℓ
  Distinct [] = Unit
  Distinct ((name, v) ∷ b) = (find_item name b ≡ none) × Distinct b

  pub find-assign :
      (k j : Bytes) (v old : V) (b : Bucket V)
      → find_item k b ≡ some old
      → find_item j (assign_item k v b) ≡ (if is_same_str k j then some v else find_item j b)
  unfolding find_item assign_item
  find-assign k j v old [] h = cc
  find-assign k j v old ((name, w) ∷ b) h = ground (
    arith,
    find-assign k j v old b,
    is_same_str_iff name k,
    is_same_str_iff name j,
    is_same_str_iff k j,
  )

  pub find-unlink :
      (k j : Bytes) (b : Bucket V)
      → Distinct b
      → find_item j (unlink_item k b) ≡ (if is_same_str k j then none else find_item j b)
  unfolding find_item unlink_item
  find-unlink k j [] d = ground arith
  find-unlink k j ((name, w) ∷ b) d = ground (
    arith,
    find-unlink k j b,
    is_same_str_iff name k,
    is_same_str_iff name j,
    is_same_str_iff k j,
  )

  pub length-assign : (k : Bytes) (v : V) (b : Bucket V) → length (assign_item k v b) ≡ length b
  unfolding assign_item
  length-assign k v [] = refl
  length-assign k v ((name, w) ∷ b) = ground (arith, length-assign k v b)

  pub length-unlink :
      (k : Bytes) (old : V) (b : Bucket V)
      → find_item k b ≡ some old
      → length (unlink_item k b) + 1 ≡ length b
  unfolding unlink_item find_item
  length-unlink k old [] h = cc
  length-unlink k old ((name, w) ∷ b) h = ground (arith, length-unlink k old b)

  find-assign_none :
      (k j : Bytes) (v : V) (b : Bucket V)
      → find_item j b ≡ none
      → find_item j (assign_item k v b) ≡ none
  unfolding find_item assign_item
  find-assign_none k j v [] h = refl
  find-assign_none k j v ((name, w) ∷ b) h = ground (arith, find-assign_none k j v b)

  pub assign-Distinct :
      (k : Bytes) (v : V) (b : Bucket V) → Distinct b → Distinct (assign_item k v b)
  unfolding find_item assign_item
  assign-Distinct k v [] d = tt
  assign-Distinct k v ((name, w) ∷ b) d =
      ground (arith, assign-Distinct k v b, find-assign_none k name v b)

  find-unlink_none :
      (k j : Bytes) (b : Bucket V) → find_item j b ≡ none → find_item j (unlink_item k b) ≡ none
  unfolding find_item unlink_item
  find-unlink_none k j [] h = refl
  find-unlink_none k j ((name, w) ∷ b) h = ground (arith, find-unlink_none k j b)

  pub unlink-Distinct : (k : Bytes) (b : Bucket V) → Distinct b → Distinct (unlink_item k b)
  unfolding find_item unlink_item
  unlink-Distinct k [] d = tt
  unlink-Distinct k ((name, w) ∷ b) d =
      ground (arith, unlink-Distinct k b, find-unlink_none k name b)
