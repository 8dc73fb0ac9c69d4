-- ===== src/Arith/Munch.antt =====
-- get_op() of src/shunt.c takes the longest operator.
use layla_shell.Arith.Op.{Op, chars, at, op_of, get_op}
use layla_shell.Prelude.Bytes.{Bytes, codes}
use layla_shell.Prelude.{
  ℕ, ◌≤◌, ◌≡◌, refl, Bool, true, false, ◌&&◌, ◌||◌, Option, none, some, [], ◌∷◌, arith, ◌==◌,
  length, if◌then◌else◌, sym, ap, subst, ◌∙◌, All, Bool-cases, inl, inr, ==_iff,
}
use layla_shell.Arith.Spelling.{spelling, starts, spelling-chars, starts-at}

-- two bytes, and three, that an operator is made of
unfoldable pub makes_two : ℕ → ℕ → Bool
makes_two c d =
    d == b'='
      && (c == b'+'
          || c == b'-'
          || c == b'*'
          || c == b'/'
          || c == b'%'
          || c == b'<'
          || c == b'>'
          || c == b'!'
          || c == b'='
          || c == b'&'
          || c == b'|'
          || c == b'^')
    || d == c
      && (c == b'+' || c == b'-' || c == b'*' || c == b'<' || c == b'>' || c == b'&' || c == b'|')

unfoldable pub makes_three : ℕ → ℕ → ℕ → Bool
makes_three c d e = e == b'=' && d == c && (c == b'<' || c == b'>')

unfoldable pub width : ℕ → ℕ → ℕ → ℕ
width c d e = if makes_three c d e then 3 else if makes_two c d then 2 else 1

-- the bytes that operators start with
abbrev firsts : Bytes
firsts = codes "+-*<>!=&|^/%~(),"

unfoldable contains : ℕ → Bytes → Bool
contains c [] = false
contains c (a ∷ s) = if c == a then true else contains c s

All-contains : (P : ℕ → Type 0) (c : ℕ) (s : Bytes) → All P s → contains c s ≡ true → P c
unfolding contains
All-contains P c [] all h = cc
All-contains P c (a ∷ s) all h = elim (Bool-cases (c == a)) [
  | inl e ↦ subst P (sym ((==_iff c a).0 e)) all.0
  | inr e ↦ All-contains P c s all.1 (ap (λ b. if b then true else contains c s) (sym e) ∙ h)
]

op_of-contains : (c d e : ℕ) → contains c firsts ≡ false → op_of c d e ≡ none
unfolding op_of contains
op_of-contains c d e h = ground arith

abbrev HasWidth : ℕ → Type 0
HasWidth c = (d e : ℕ) (o : Op) → op_of c d e ≡ some o → chars o ≡ width c d e

firsts-HasWidth : All HasWidth firsts
unfolding op_of chars width makes_two makes_three
firsts-HasWidth = (
  λ d e o h. ground arith,
  (
    λ d e o h. ground arith,
    (
      λ d e o h. ground arith,
      (
        λ d e o h. ground arith,
        (
          λ d e o h. ground arith,
          (
            λ d e o h. ground arith,
            (
              λ d e o h. ground arith,
              (
                λ d e o h. ground arith,
                (
                  λ d e o h. ground arith,
                  (
                    λ d e o h. ground arith,
                    (
                      λ d e o h. ground arith,
                      (
                        λ d e o h. ground arith,
                        (
                          λ d e o h. ground arith,
                          (
                            λ d e o h. ground arith,
                            (λ d e o h. ground arith, (λ d e o h. ground arith, tt)),
                          ),
                        ),
                      ),
                    ),
                  ),
                ),
              ),
            ),
          ),
        ),
      ),
    ),
  ),
)

abbrev HasStart : ℕ → Type 0
HasStart c =
    (d e : ℕ) (s : Bytes) (o : Op)
    → op_of c d e ≡ some o
    → starts (spelling o) (c ∷ d ∷ e ∷ s) ≡ true

firsts-HasStart : All HasStart firsts
unfolding op_of spelling starts
firsts-HasStart = (
  λ d e s o h. ground arith,
  (
    λ d e s o h. ground arith,
    (
      λ d e s o h. ground arith,
      (
        λ d e s o h. ground arith,
        (
          λ d e s o h. ground arith,
          (
            λ d e s o h. ground arith,
            (
              λ d e s o h. ground arith,
              (
                λ d e s o h. ground arith,
                (
                  λ d e s o h. ground arith,
                  (
                    λ d e s o h. ground arith,
                    (
                      λ d e s o h. ground arith,
                      (
                        λ d e s o h. ground arith,
                        (
                          λ d e s o h. ground arith,
                          (
                            λ d e s o h. ground arith,
                            (λ d e s o h. ground arith, (λ d e s o h. ground arith, tt)),
                          ),
                        ),
                      ),
                    ),
                  ),
                ),
              ),
            ),
          ),
        ),
      ),
    ),
  ),
)

-- an operator that op_of() finds starts with one of the bytes
op_of-first : (P : ℕ → Type 0) (c d e : ℕ) (o : Op) → All P firsts → op_of c d e ≡ some o → P c
op_of-first P c d e o all h = elim (Bool-cases (contains c firsts)) [
  | inl first ↦ All-contains P c firsts all first
  | inr other ↦ let clash : none ≡ some o = sym (op_of-contains c d e other) ∙ h in cc
]

op_of-width : (c d e : ℕ) (o : Op) → op_of c d e ≡ some o → chars o ≡ width c d e
op_of-width c d e o h = op_of-first HasWidth c d e o firsts-HasWidth h d e o h

op_of-starts :
    (c d e : ℕ) (s : Bytes) (o : Op)
    → op_of c d e ≡ some o
    → starts (spelling o) (c ∷ d ∷ e ∷ s) ≡ true
op_of-starts c d e s o h = op_of-first HasStart c d e o firsts-HasStart h d e s o h

starts-width :
    (c d e : ℕ) (s : Bytes) (p : Op)
    → starts (spelling p) (c ∷ d ∷ e ∷ s) ≡ true
    → chars p ≤ width c d e
unfolding spelling starts chars width makes_two makes_three
starts-width c d e s p h = ground arith

op_of-none :
    (c d e : ℕ) (s : Bytes) (p : Op)
    → op_of c d e ≡ none
    → starts (spelling p) (c ∷ d ∷ e ∷ s) ≡ false
unfolding op_of spelling starts
op_of-none c d e s p h = ground arith

-- `s` starts with the spelling of the operator, and with no operator that has more characters
abbrev pub IsLongest : Bytes → Option Op → Type 0
IsLongest s none = (p : Op) → starts (spelling p) s ≡ false
IsLongest s (some o) =
    (starts (spelling o) s ≡ true)
    × (length (spelling o) ≡ chars o)
    × ((p : Op) → starts (spelling p) s ≡ true → chars p ≤ chars o)

IsLongest-of : (s : Bytes) (r : Option Op) → op_of (at s 0) (at s 1) (at s 2) ≡ r → IsLongest s r
IsLongest-of s none h = λ p. starts-at p s ∙ op_of-none (at s 0) (at s 1) (at s 2) [] p h
IsLongest-of s (some o) h =
    let fits = starts-at o s ∙ op_of-starts (at s 0) (at s 1) (at s 2) [] o h in
    (
      fits,
      spelling-chars o,
      λ p st.
          let le = starts-width (at s 0) (at s 1) (at s 2) [] p (sym (starts-at p s) ∙ st) in
          rw (op_of-width (at s 0) (at s 1) (at s 2) o h) le,
    )

-- get_op() reads the longest operator: if it returns one, the text starts with that operator's spelling,
-- which has as many characters as `chars` says, and with no operator that has more; if it returns NULL,
-- the text starts with no operator.
pub get_op-IsLongest : (s : Bytes) → IsLongest s (get_op s)
unfolding get_op
get_op-IsLongest s = IsLongest-of s _ refl
