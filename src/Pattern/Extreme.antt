-- ===== src/Pattern/Extreme.antt =====
-- Which prefix and which suffix match_prefix() and match_suffix() of src/backend/pattern.c find.
use layla_shell.Arith.Text.{lt_or_ge}
use layla_shell.Pattern.{
  match_result, first_match, returns, prefix_loop, match_prefix, suffix_loop, match_suffix,
}
use layla_shell.Prelude.Bytes.{Bytes}
use layla_shell.Prelude.{
  ℕ, zero, suc, ◌+◌, ◌-◌, ◌<◌, ◌≤◌, ◌≡◌, refl, ◌⊎◌, inl, inr, Bool, true, false, not, ◌∷◌, none,
  some, arith, ◌==◌, ==_iff, if◌then◌else◌, take, drop, length, Bool-cases,
}

-- `r` is the smallest, or the greatest, of the numbers from `lo` up to, but not including, `hi` that pass
-- the test, or 0 if none does
abbrev pub IsExtreme : (ℕ → Bool) → ℕ → ℕ → Bool → ℕ → Type 0
IsExtreme test lo hi greatest r =
    ((r ≡ 0) × ((k : ℕ) → lo ≤ k → k < hi → test k ≡ false))
    ⊎ ((lo ≤ r)
        × (r < hi)
        × (test r ≡ true)
        × ((k : ℕ) → lo ≤ k → k < hi → test k ≡ true → if greatest then k ≤ r else r ≤ k))

-- what the longest loop knows after a match at `l`, at offset `s`
abbrev BestBelow : (ℕ → Bool) → ℕ → ℕ → Type 0
BestBelow test s l =
    (1 ≤ l) × (l < s) × (test l ≡ true) × ((k : ℕ) → 1 ≤ k → k < s → test k ≡ true → k ≤ l)

abbrev NoneBelow : (ℕ → Bool) → ℕ → Type 0
NoneBelow test s = (k : ℕ) → 1 ≤ k → k < s → test k ≡ false

clash : {b : Bool} → b ≡ false → b ≡ true → ⊥
clash p q = cc

step_none : (test : ℕ → Bool) (s : ℕ) → NoneBelow test s → test s ≡ false → NoneBelow test (s + 1)
step_none test s h e k low high = elim (Bool-cases (k == s)) [
  | inl p ↦ let same : k ≡ s = (==_iff k s).0 p in rw same e
  | inr p ↦ h k low (ground (arith, ==_iff k s))
]

step_best :
    (test : ℕ → Bool) (s l : ℕ) → BestBelow test s l → test s ≡ false → BestBelow test (s + 1) l
step_best test s l (low, high, hit, best) e = (low, omega arith, hit, later)
  where
    later : (k : ℕ) → 1 ≤ k → k < s + 1 → test k ≡ true → k ≤ l
    later k a b t = elim (Bool-cases (k == s)) [
      | inl p ↦ let same : k ≡ s = (==_iff k s).0 p in absurd (clash (rw (← same) at e) t)
      | inr p ↦ best k a (ground (arith, ==_iff k s)) t
    ]

prefix_loop-best :
    (matches : Bytes → Bool) (str : Bytes) (n s hi s0 l : ℕ)
    → s + n ≡ hi
    → 1 ≤ s
    → BestBelow (λ k. matches (take k str)) s l
    → IsExtreme
        (λ k. matches (take k str))
        1
        hi
        true
        (prefix_loop matches str true n s (some s0) (some l))
unfolding prefix_loop match_result first_match returns
prefix_loop-best matches str zero s hi s0 l e pos (low, high, hit, best) =
    inr (low, omega arith, hit, λ k a b t. best k a (omega arith) t)
prefix_loop-best matches str (suc n) s hi s0 l e pos h = elim (Bool-cases (matches (take s str))) [
  | inl p ↦ rw p (
      prefix_loop-best matches str n (s + 1) hi s0 s (omega arith) (omega arith)
        (pos, omega arith, p, λ k a b t. omega arith))
  | inr p ↦ rw p (
      prefix_loop-best matches str n (s + 1) hi s0 l (omega arith) (omega arith)
        (step_best (λ k. matches (take k str)) s l h p))
]

prefix_loop-none :
    (matches : Bytes → Bool) (str : Bytes) (longest : Bool) (n s hi : ℕ)
    → s + n ≡ hi
    → 1 ≤ s
    → NoneBelow (λ k. matches (take k str)) s
    → IsExtreme
        (λ k. matches (take k str))
        1
        hi
        longest
        (prefix_loop matches str longest n s none none)
unfolding prefix_loop match_result first_match returns
prefix_loop-none matches str longest zero s hi e pos h = inl (refl, λ k a b. h k a (omega arith))
prefix_loop-none matches str true (suc n) s hi e pos h = elim (Bool-cases (matches (take s str))) [
  | inl p ↦ rw p (
      prefix_loop-best matches str n (s + 1) hi s s (omega arith) (omega arith)
        (pos, omega arith, p, λ k a b t. omega arith))
  | inr p ↦ rw p (
      prefix_loop-none matches str true n (s + 1) hi (omega arith) (omega arith)
        (step_none (λ k. matches (take k str)) s h p))
]
prefix_loop-none matches str false (suc n) s hi e pos h = elim (Bool-cases (matches (take s str))) [
  | inl p ↦ rw p (inr (pos, omega arith, p, least))
  | inr p ↦ rw p (
      prefix_loop-none matches str false n (s + 1) hi (omega arith) (omega arith)
        (step_none (λ k. matches (take k str)) s h p))
]
  where
    least : (k : ℕ) → 1 ≤ k → k < hi → matches (take k str) ≡ true → s ≤ k
    least k a b t = elim (lt_or_ge k s) [ inl lt ↦ absurd (clash (h k a lt) t) | inr ge ↦ ge ]

-- match_prefix() of a string that is not empty finds the longest, or the shortest, prefix that matches
-- among those that are neither empty nor the whole string, and answers 0 if there is none.
pub match_prefix-IsExtreme :
    (matches : Bytes → Bool) (c : ℕ) (str : Bytes) (longest : Bool)
    → (r : ℕ) × (match_prefix matches (c ∷ str) longest ≡ some r)
      × IsExtreme (λ k. matches (take k (c ∷ str))) 1 (length (c ∷ str)) longest r
unfolding match_prefix
match_prefix-IsExtreme matches c str longest = (
  prefix_loop matches (c ∷ str) longest (length str) 1 none none,
  refl,
  prefix_loop-none matches (c ∷ str) longest (length str) 1 (length (c ∷ str)) (omega arith)
      (omega arith) (λ k a b. absurd (omega arith)),
)

abbrev NoneAbove : (ℕ → Bool) → ℕ → ℕ → Type 0
NoneAbove test s hi = (k : ℕ) → s < k → k < hi → test k ≡ false

-- what the longest loop knows after a match at `l`, with the offsets up to `s` left
abbrev BestAbove : (ℕ → Bool) → ℕ → ℕ → ℕ → Type 0
BestAbove test s hi l =
    (s < l) × (l < hi) × (test l ≡ true) × ((k : ℕ) → s < k → k < hi → test k ≡ true → l ≤ k)

down_none :
    (test : ℕ → Bool) (s hi : ℕ)
    → NoneAbove test (suc s) hi
    → test (suc s) ≡ false
    → NoneAbove test s hi
down_none test s hi h e k low high = elim (Bool-cases (k == suc s)) [
  | inl p ↦ let same : k ≡ suc s = (==_iff k (suc s)).0 p in rw same e
  | inr p ↦ h k (ground (arith, ==_iff k (suc s))) high
]

down_best :
    (test : ℕ → Bool) (s hi l : ℕ)
    → BestAbove test (suc s) hi l
    → test (suc s) ≡ false
    → BestAbove test s hi l
down_best test s hi l (low, high, hit, best) e = (omega arith, high, hit, later)
  where
    later : (k : ℕ) → s < k → k < hi → test k ≡ true → l ≤ k
    later k a b t = elim (Bool-cases (k == suc s)) [
      | inl p ↦ let same : k ≡ suc s = (==_iff k (suc s)).0 p in absurd (clash (rw (← same) at e) t)
      | inr p ↦ best k (ground (arith, ==_iff k (suc s))) b t
    ]

suffix_loop-best :
    (matches : Bytes → Bool) (str : Bytes) (s hi s0 l : ℕ)
    → BestAbove (λ k. matches (drop k str)) s hi l
    → IsExtreme
        (λ k. matches (drop k str))
        1
        hi
        false
        (suffix_loop matches str true s (some s0) (some l))
unfolding suffix_loop match_result first_match returns
suffix_loop-best matches str zero hi s0 l (low, high, hit, best) =
    inr (omega arith, high, hit, λ k a b t. best k (omega arith) b t)
suffix_loop-best matches str (suc s) hi s0 l h = elim (Bool-cases (matches (drop (suc s) str))) [
  | inl p ↦ rw p (
      suffix_loop-best matches str s hi s0 (suc s)
        (omega arith, omega (arith, h.0, h.1), p, λ k a b t. omega arith))
  | inr p ↦
      rw p
        (suffix_loop-best matches str s hi s0 l (down_best (λ k. matches (drop k str)) s hi l h p))
]

suffix_loop-none :
    (matches : Bytes → Bool) (str : Bytes) (longest : Bool) (s hi : ℕ)
    → s < hi
    → NoneAbove (λ k. matches (drop k str)) s hi
    → IsExtreme
        (λ k. matches (drop k str))
        1
        hi
        (not longest)
        (suffix_loop matches str longest s none none)
unfolding suffix_loop match_result first_match returns
suffix_loop-none matches str longest zero hi lt h = inl (refl, λ k a b. h k (omega arith) b)
suffix_loop-none matches str true (suc s) hi lt h = elim (Bool-cases (matches (drop (suc s) str))) [
  | inl p ↦ rw p (
      suffix_loop-best matches str s hi (suc s) (suc s)
        (omega arith, lt, p, λ k a b t. omega arith))
  | inr p ↦ rw p (
      suffix_loop-none matches str true s hi (omega arith)
        (down_none (λ k. matches (drop k str)) s hi h p))
]
suffix_loop-none matches str false (suc s) hi lt h =
    elim (Bool-cases (matches (drop (suc s) str))) [
      | inl p ↦ rw p (inr (omega arith, lt, p, greatest))
      | inr p ↦ rw p (
          suffix_loop-none matches str false s hi (omega arith)
            (down_none (λ k. matches (drop k str)) s hi h p))
    ]
  where
    greatest : (k : ℕ) → 1 ≤ k → k < hi → matches (drop k str) ≡ true → k ≤ suc s
    greatest k a b t = elim (lt_or_ge (suc s) k) [
      | inl above ↦ absurd (clash (h k above b) t)
      | inr le ↦ le
    ]

-- match_suffix() finds the longest, or the shortest, suffix that matches among those that are neither
-- empty nor the whole string: it answers the offset at which it starts, the least one for the longest,
-- and 0 if there is none.
pub match_suffix-IsExtreme :
    (matches : Bytes → Bool) (str : Bytes) (longest : Bool)
    → IsExtreme
        (λ k. matches (drop k str))
        1
        (1 + (length str - 1))
        (not longest)
        (match_suffix matches str longest)
unfolding match_suffix
match_suffix-IsExtreme matches str longest =
    suffix_loop-none matches str longest (length str - 1) (1 + (length str - 1)) (omega arith)
      (λ k a b. absurd (omega arith))
