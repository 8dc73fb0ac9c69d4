-- ===== src/Strings/Colon.antt =====
-- next_colon_entry() of src/strings.c. The caller's pointer into the list is the text from there
-- on; `mem` says whether malloc() has the memory, and `none` is NULL.
use layla_shell.Strings.Split.{
  before, from, skip, fields, fields-skip, fields_cons, skip-head, length-skip-le, length-from-le,
  StartsOther,
}
use layla_shell.Prelude.Bytes.{Bytes}
use layla_shell.Prelude.{
  ℕ, zero, suc, ◌<◌, ◌≡◌, refl, Bool, true, false, Option, none, some, List, [], ◌∷◌, arith, length,
  ◌∙◌,
}

-- behind the leading colons: `s2 = s1 + 1` and the loop to the next colon
unfoldable pub take_entry : Bool → Bytes → Bytes → Option Bytes × Bytes
unfolding before from
take_entry mem colon_list [] = (none, colon_list)
take_entry false colon_list (c ∷ s) = (none, colon_list)
take_entry true colon_list (c ∷ s) = (some (c ∷ before b':' s), from b':' s)

unfoldable pub next_colon_entry : Bool → Bytes → Option Bytes × Bytes
unfolding take_entry skip
next_colon_entry mem colon_list = take_entry mem colon_list (skip b':' colon_list)

-- the callers' loop `while((entry = next_colon_entry(&list)))`
unfoldable pub colon_entries : ℕ → Bytes → List Bytes
colon_entries zero s = []
colon_entries (suc fuel) s =
    let (entry, rest) = next_colon_entry true s in
    elim entry [ none ↦ [] | some e ↦ e ∷ colon_entries fuel rest ]

entry_shorter :
    (fuel : ℕ) (s t : Bytes) (c : ℕ)
    → skip b':' s ≡ c ∷ t
    → length s < suc fuel
    → length (from b':' t) < fuel
entry_shorter fuel s t c e lt =
    omega (arith, rw e at (length-skip-le b':' s), length-from-le b':' t)

next-some :
    (s t : Bytes) (c : ℕ)
    → skip b':' s ≡ c ∷ t
    → next_colon_entry true s ≡ (some (c ∷ before b':' t), from b':' t)
unfolding next_colon_entry
next-some s t c e = rw e

next-none : (s : Bytes) → skip b':' s ≡ [] → next_colon_entry true s ≡ (none, s)
unfolding next_colon_entry
next-none s e = rw e

entries-skipped :
    (fuel : ℕ) (s t : Bytes)
    → skip b':' s ≡ t
    → ((rest : Bytes) → length rest < fuel → colon_entries fuel rest ≡ fields b':' rest)
    → length s < suc fuel
    → StartsOther b':' t
    → colon_entries (suc fuel) s ≡ fields b':' t
entries-skipped fuel s [] e ih lt h = unfold colon_entries fields in ground (arith, next-none s e)
entries-skipped fuel s (c ∷ t) e ih lt h =
    let shorter = entry_shorter fuel s t c e lt in
    unfold colon_entries in
    ground (arith, next-some s t c e, ih (from b':' t) shorter, fields_cons b':' c t h)

-- Calling next_colon_entry() until it returns NULL gives the entries of the list that are not empty,
-- in their order, and as many calls as the list has bytes, and one, are enough.
pub colon_entries-fields :
    (fuel : ℕ) (s : Bytes) → length s < fuel → colon_entries fuel s ≡ fields b':' s
colon_entries-fields zero s lt = elim lt [ ]
colon_entries-fields (suc fuel) s lt =
    entries-skipped fuel s (skip b':' s) refl (colon_entries-fields fuel) lt (skip-head b':' s)
    ∙ fields-skip b':' s
