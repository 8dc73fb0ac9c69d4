-- ===== src/Strbuf/Refs.antt =====
-- The counts in the string pool are the numbers of references that callers hold.
use native.Mathlib.Numerals.{add-one}
use layla_shell.HashTable.Defs.{Hashtab, set_bucket, assign_item, bucket_of, rem_hash_item}
use layla_shell.HashTable.Invariant.{IsValid, view}
use layla_shell.HashTable.Laws.{
  Updates, assign-Updates, add_hash_itemb-Updates, rem_hash_item-Updates,
}
use layla_shell.Strings.Search.{is_same_str, is_same_str_iff, is_same_str_refl}
use layla_shell.Strbuf.{
  pooled, set_refs, ref_entry, entry_ptr, search_pool, get_malloced_str, drop_ref, free_str_of,
  free_malloced_str,
}
use layla_shell.Prelude.Bytes.{Bytes}
use layla_shell.Prelude.{
  ℕ, zero, suc, ◌+◌, ◌-◌, ◌<◌, ◌≡◌, refl, true, false, Option, none, some, [], ◌∷◌, arith, ◌==◌,
  if◌then◌else◌, Bool-cases, Option-cases, sym, ◌∙◌, leb, inl, inr,
}

-- a string that is pooled: neither empty nor the single newline
abbrev pub IsPooled : Bytes → Type 0
IsPooled [] = ⊥
IsPooled (c ∷ []) = (c == b'\n') ≡ false
IsPooled (c ∷ d ∷ s) = Unit

abbrev pub counted : ℕ → Option ℕ
counted zero = none
counted (suc n) = some (suc n)

-- the pool has an entry exactly for the strings that are held, with the number of holders
pub record Counts (held : Bytes → ℕ) (t : Hashtab ℕ) : Type 0 where
  pub valid : IsValid t
  pub refs : (s : Bytes) → view t s ≡ counted (held s)

abbrev pub hold : (Bytes → ℕ) → Bytes → Bytes → ℕ
hold held k s = if is_same_str k s then held s + 1 else held s

abbrev pub release : (Bytes → ℕ) → Bytes → Bytes → ℕ
release held k s = if is_same_str k s then held s - 1 else held s

Counts-Updates :
    (held held' : Bytes → ℕ) (t t' : Hashtab ℕ) (k : Bytes)
    → Counts held t
    → Updates t k (counted (held' k)) t'
    → ((s : Bytes) → is_same_str k s ≡ false → held' s ≡ held s)
    → Counts held' t'
Counts-Updates held held' t t' k c u same = record {
  valid = u.valid;
  refs = λ s. ground (arith, u.views s, c.refs s, same s, is_same_str_iff k s);
}

counted-eq-none : (n : ℕ) → counted n ≡ none → n ≡ 0
counted-eq-none zero h = refl
counted-eq-none (suc n) h = cc

counted-eq-some : (n : ℕ) {r : ℕ} → counted n ≡ some r → n ≡ r
counted-eq-some zero h = cc
counted-eq-some (suc n) h = cc

counted-suc : (n : ℕ) → counted (n + 1) ≡ some (n + 1)
counted-suc n = rw add-one

counted-pos : (n : ℕ) → 0 < n → counted n ≡ some n
counted-pos zero h = elim h [ ]
counted-pos (suc n) h = refl

hold_self : (held : Bytes → ℕ) (k : Bytes) → hold held k k ≡ held k + 1
hold_self held k = rw is_same_str_refl

release_self : (held : Bytes → ℕ) (k : Bytes) → release held k k ≡ held k - 1
release_self held k = rw is_same_str_refl

search_pool-hold :
    (held : Bytes → ℕ) (t : Hashtab ℕ) (k : Bytes)
    → Counts held t
    → (t' : Hashtab ℕ) × (search_pool true (some t) k ≡ (pooled k, some t'))
      × Counts (hold held k) t'
unfolding search_pool set_refs ref_entry entry_ptr
search_pool-hold held t k c = elim (Option-cases (view t k)) [
  | inl e ↦
      let zero_held = counted-eq-none (held k) (sym (c.refs k) ∙ e) in
      let (t', run, u) = add_hash_itemb-Updates t k 1 c.valid in
      let goal : counted (hold held k k) ≡ some 1 = rw (hold_self, zero_held) in
      (t', rw (e, run), Counts-Updates held (hold held k) t t' k c (rw goal u) (λ s d. rw d))
  | inr (refs, e) ↦
      let same = counted-eq-some (held k) (sym (c.refs k) ∙ e) in
      let goal : counted (hold held k k) ≡ some (refs + 1) = rw (hold_self, counted-suc, same) in
      (
        set_bucket t k (assign_item k (refs + 1) (bucket_of t k)),
        rw e,
        Counts-Updates held (hold held k) t _ k c
            (rw goal (assign-Updates t c.valid k (refs + 1) refs e)) (λ s d. rw d),
      )
]

-- get_malloced_str() of a string that is pooled, with the memory there, returns its pooled copy, and
-- the counts grow by one for that string and by none for any other.
pub get_malloced_str-hold :
    (held : Bytes → ℕ) (t : Hashtab ℕ) (k : Bytes)
    → Counts held t
    → IsPooled k
    → (t' : Hashtab ℕ) × (get_malloced_str true (some t) (some k) ≡ (pooled k, some t'))
      × Counts (hold held k) t'
unfolding get_malloced_str
get_malloced_str-hold held t [] c p = absurd p
get_malloced_str-hold held t (a ∷ []) c p = rw p (search_pool-hold held t (a ∷ []) c)
get_malloced_str-hold held t (a ∷ b ∷ s) c p = search_pool-hold held t (a ∷ b ∷ s) c

-- free_malloced_str() of a pooled string that is held takes one off the count of that string, and
-- removes its entry when the count was one; no other string is touched.
pub free_malloced_str-release :
    (held : Bytes → ℕ) (t : Hashtab ℕ) (k : Bytes)
    → Counts held t
    → 0 < held k
    → (t' : Hashtab ℕ) × (free_malloced_str (some t) (pooled k) ≡ some t')
      × Counts (release held k) t'
unfolding free_malloced_str free_str_of drop_ref set_refs
free_malloced_str-release held t k c pos = elim (Option-cases (view t k)) [
  | inl e ↦ let zero_held = counted-eq-none (held k) (sym (c.refs k) ∙ e) in absurd (omega arith)
  | inr (refs, e) ↦
      let same = counted-eq-some (held k) (sym (c.refs k) ∙ e) in
      elim (Bool-cases (leb (refs - 1) 0)) [
        | inl last ↦
            let goal : counted (release held k k) ≡ none =
              let z : held k - 1 ≡ 0 = ground arith in rw (release_self, z) in
            (
              rem_hash_item t k,
              rw (e, last),
              Counts-Updates held (release held k) t _ k c
                  (rw goal (rem_hash_item-Updates t c.valid k)) (λ s d. rw d),
            )
        | inr more ↦
            let goal : counted (release held k k) ≡ some (refs - 1) =
              rw (release_self, same) (counted-pos (refs - 1) (ground arith)) in
            (
              set_bucket t k (assign_item k (refs - 1) (bucket_of t k)),
              rw (e, more),
              Counts-Updates held (release held k) t _ k c
                  (rw goal (assign-Updates t c.valid k (refs - 1) refs e)) (λ s d. rw d),
            )
      ]
]
