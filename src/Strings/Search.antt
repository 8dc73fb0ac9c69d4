-- ===== src/Strings/Search.antt =====
-- strchr_any(), chrcmp() and is_same_str() of src/strings.c. A pointer into the string is the
-- offset from its start.
use Prim.Native.Nat.{Ordering}
use layla_shell.Prelude.Bytes.{Bytes, strcmp, strcmp-eq, strcmp_refl}
use layla_shell.Prelude.{
  ℕ, zero, suc, ◌<◌, ◌≡◌, refl, ◌↔◌, Bool, true, false, ◌&&◌, Option, none, some, [], ◌∷◌, arith,
  ◌==◌, if◌then◌else◌, length, get_or, subst,
}
use mathlib.Core.Option

unfoldable pub chrcmp : ℕ → Bytes → ℕ
chrcmp c [] = 0
chrcmp c (d ∷ s) = if c == d then 1 else chrcmp c s

-- the inner loop `while(*c)`, which ends the search when it finds `*s`
unfoldable pub matches_any : ℕ → Bytes → Bool
matches_any c [] = false
matches_any c (d ∷ chars) = if c == d then true else matches_any c chars

unfoldable pub search_loop : Bytes → Bytes → Option ℕ
unfolding matches_any
search_loop [] chars = none
search_loop (c ∷ s) chars =
    if matches_any c chars then some 0 else Option.map suc (search_loop s chars)

unfoldable pub strchr_any : Option Bytes → Option Bytes → Option ℕ
unfolding search_loop
strchr_any (some string) (some chars) = search_loop string chars
strchr_any _ _ = none

unfoldable pub is_eq : Ordering → Bool
is_eq Ordering.eq = true
is_eq _ = false

unfoldable pub is_same_str : Bytes → Bytes → Bool
unfolding is_eq strcmp
is_same_str s1 s2 = length s1 == length s2 && is_eq (strcmp s1 s2)

pub is_same_str-eq : (s t : Bytes) → is_same_str s t ≡ true → s ≡ t
unfolding is_same_str
is_same_str-eq s t h = strcmp-eq s t (ground arith)

pub is_same_str_refl : (s : Bytes) → is_same_str s s ≡ true
unfolding is_same_str
is_same_str_refl s = ground (arith, strcmp_refl s)

-- is_same_str() answers 1 exactly for equal strings.
pub is_same_str_iff : (s t : Bytes) → (is_same_str s t ≡ true) ↔ (s ≡ t)
is_same_str_iff s t =
    (is_same_str-eq s t, λ e. subst (λ u. is_same_str s u ≡ true) e (is_same_str_refl s))

pub chrcmp-matches_any : (c : ℕ) (s : Bytes) → chrcmp c s ≡ (if matches_any c s then 1 else 0)
unfolding chrcmp matches_any
chrcmp-matches_any c [] = refl
chrcmp-matches_any c (d ∷ s) = ground (arith, chrcmp-matches_any c s)

-- offset `i` of `s` is the first whose byte chrcmp() finds in `chars`
pub record IsFirst (chars s : Bytes) (i : ℕ) : Type 0 where
  pub inside : i < length s
  pub found : chrcmp (get_or s i 0) chars ≡ 1
  pub earlier : (j : ℕ) → j < i → chrcmp (get_or s j 0) chars ≡ 0

step_found :
    (c : ℕ) (s chars : Bytes) (i : ℕ)
    → search_loop (c ∷ s) chars ≡ some (suc i)
    → (matches_any c chars ≡ false) × (search_loop s chars ≡ some i)
unfolding search_loop
step_found c s chars i h = ground arith

IsFirst-suc :
    (c : ℕ) (s chars : Bytes) (i : ℕ)
    → matches_any c chars ≡ false
    → IsFirst chars s i
    → IsFirst chars (c ∷ s) (suc i)
IsFirst-suc c s chars i miss f = record { inside = omega arith; found = f.found; earlier = misses }
  where
    misses : (j : ℕ) → j < suc i → chrcmp (get_or (c ∷ s) j 0) chars ≡ 0
    misses zero lt = rw (chrcmp-matches_any, miss)
    misses (suc j) lt = f.earlier j (omega arith)

search_loop-IsFirst : (s chars : Bytes) (i : ℕ) → search_loop s chars ≡ some i → IsFirst chars s i
unfolding search_loop
search_loop-IsFirst [] chars i h = cc
search_loop-IsFirst (c ∷ s) chars zero h = record {
  inside = omega arith;
  found = ground (arith, chrcmp-matches_any c chars);
  earlier = λ j lt. elim lt [ ];
}
search_loop-IsFirst (c ∷ s) chars (suc i) h =
    let (miss, rest) = step_found c s chars i h in
    IsFirst-suc c s chars i miss (search_loop-IsFirst s chars i rest)

search_loop-none :
    (s chars : Bytes) (j : ℕ)
    → search_loop s chars ≡ none
    → j < length s
    → chrcmp (get_or s j 0) chars ≡ 0
unfolding search_loop
search_loop-none [] chars j h lt = elim lt [ ]
search_loop-none (c ∷ s) chars zero h lt = ground (arith, chrcmp-matches_any c chars)
search_loop-none (c ∷ s) chars (suc j) h lt = ground (arith, search_loop-none s chars j)

-- strchr_any() on two strings: a returned offset is the first one whose byte chrcmp() finds among
-- `chars`; NULL means that chrcmp() finds no byte of the string there; and NULL is returned if
-- either string is NULL.
pub strchr_any_lem :
    (s chars : Bytes)
    → ((i : ℕ) → strchr_any (some s) (some chars) ≡ some i → IsFirst chars s i)
      × (strchr_any (some s) (some chars) ≡ none
          → (j : ℕ) → j < length s
          → chrcmp (get_or s j 0) chars ≡ 0)
      × (strchr_any none (some chars) ≡ none)
      × (strchr_any (some s) none ≡ none)
unfolding strchr_any
strchr_any_lem s chars =
    (search_loop-IsFirst s chars, λ h j. search_loop-none s chars j h, refl, refl)
