-- ===== src/Strings/Split.antt =====
-- The specification that the list helpers of src/strings.c are held against: the fields of a text
-- between separators, and the fields that are not empty.
use layla_shell.Prelude.Bytes.{Bytes}
use layla_shell.Prelude.{
  ℕ, ◌≡◌, refl, List, [], ◌∷◌, ◌++◌, arith, ◌==◌, if◌then◌else◌, ==_refl, false, length, ap, ◌≤◌,
  Bool-cases, inl, inr,
}

abbrev pub push_head : ℕ → List Bytes → List Bytes
push_head c [] = (c ∷ []) ∷ []
push_head c (f ∷ fs) = (c ∷ f) ∷ fs

unfoldable pub split : ℕ → Bytes → List Bytes
split sep [] = [] ∷ []
split sep (c ∷ s) = let fs = split sep s in if c == sep then [] ∷ fs else push_head c fs

unfoldable pub nonempty : List Bytes → List Bytes
nonempty [] = []
nonempty ([] ∷ fs) = nonempty fs
nonempty ((c ∷ f) ∷ fs) = (c ∷ f) ∷ nonempty fs

unfoldable pub fields : ℕ → Bytes → List Bytes
unfolding nonempty split
fields sep s = nonempty (split sep s)

-- the text up to the first separator
unfoldable pub before : ℕ → Bytes → Bytes
before sep [] = []
before sep (c ∷ s) = if c == sep then [] else c ∷ before sep s

-- the text from the first separator on
unfoldable pub from : ℕ → Bytes → Bytes
from sep [] = []
from sep (c ∷ s) = if c == sep then c ∷ s else from sep s

-- the text behind the separators at its start
unfoldable pub skip : ℕ → Bytes → Bytes
skip sep [] = []
skip sep (c ∷ s) = if c == sep then skip sep s else c ∷ s

-- empty, or starting with another byte than the separator
abbrev pub StartsOther : ℕ → Bytes → Type 0
StartsOther sep [] = Unit
StartsOther sep (c ∷ s) = (c == sep) ≡ false

module _ (sep : ℕ) where
  fields-sep : (s : Bytes) → fields sep (sep ∷ s) ≡ fields sep s
  unfolding fields
  fields-sep s = ground (arith, ==_refl sep)

  pub fields-skip : (s : Bytes) → fields sep (skip sep s) ≡ fields sep s
  unfolding skip fields
  fields-skip [] = refl
  fields-skip (c ∷ s) = ground (arith, fields-skip s)

  split-before :
      (s : Bytes)
      → (rest : List Bytes) × (split sep s ≡ before sep s ∷ rest)
        × (nonempty rest ≡ fields sep (from sep s))
  unfolding split before from fields
  split-before [] = ([], refl, refl)
  split-before (c ∷ s) = elim (Bool-cases (c == sep)) [
    | inl e ↦ (split sep s, rw e, rw e (rw e))
    | inr e ↦ let (rest, a, b) = split-before s in (rest, rw (e, a), rw (e, b))
  ]

  pub fields_cons :
      (c : ℕ) (s : Bytes)
      → (c == sep) ≡ false
      → fields sep (c ∷ s) ≡ (c ∷ before sep s) ∷ fields sep (from sep s)
  unfolding fields
  fields_cons c s e =
      let (rest, a, b) = split-before s in
      rw (e, a) (ap (λ (t : List Bytes). (c ∷ before sep s) ∷ t) b)

  -- the first byte behind the separators is none
  pub skip-head : (s : Bytes) → StartsOther sep (skip sep s)
  unfolding skip
  skip-head [] = tt
  skip-head (c ∷ s) = elim (Bool-cases (c == sep)) [ inl e ↦ rw e (skip-head s) | inr e ↦ rw e e ]

  pub length-skip-le : (s : Bytes) → length (skip sep s) ≤ length s
  unfolding skip
  length-skip-le [] = omega arith
  length-skip-le (c ∷ s) = ground (arith, length-skip-le s)

  pub length-from-le : (s : Bytes) → length (from sep s) ≤ length s
  unfolding from
  length-from-le [] = omega arith
  length-from-le (c ∷ s) = ground (arith, length-from-le s)

  pub before-from : (s : Bytes) → before sep s ++ from sep s ≡ s
  unfolding before from
  before-from [] = refl
  before-from (c ∷ s) = ground (arith, before-from s)
