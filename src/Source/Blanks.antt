-- ===== src/Source/Blanks.antt =====
-- skip_white_spaces() of src/scanner/source.c.
use layla_shell.Source.{
  Source, to_char, eof, is_eof, is_space, bufsize, next_char, peek_char, skip_loop,
  skip_white_spaces,
}
use layla_shell.Source.Reading.{StandsAt, peek-at, next-at}
use layla_shell.Prelude.Bytes.{Bytes}
use layla_shell.Prelude.{
  ℕ, zero, suc, ◌+◌, ◌-◌, ◌<◌, ◌≤◌, ◌≡◌, some, Bool, true, false, not, ◌&&◌, ◌||◌, [], ◌∷◌, arith,
  ltb, ◌==◌, ◌∙◌, length, drop, drop_cons, drop_all, get_or, if◌then◌else◌, Bool-cases, inl, inr,
}

unfoldable pub is_blank : ℕ → Bool
is_blank b = b == b' ' || b == b'\t'

-- the number of blanks that a text starts with
unfoldable pub blanks : Bytes → ℕ
unfolding is_blank
blanks [] = 0
blanks (b ∷ s) = if is_blank b then suc (blanks s) else 0

loop_test : (b : ℕ) → (not (is_eof (to_char b)) && is_space (to_char b)) ≡ is_blank b
unfolding is_eof to_char is_space is_blank
loop_test b = ground arith

peek-byte :
    (text : Bytes) (n : ℕ) (src : Source)
    → StandsAt text n src
    → n < length text
    → (not (is_eof (peek_char src)) && is_space (peek_char src)) ≡ is_blank (get_or text n 0)
peek-byte text n src s lt =
    let inside : ltb n (length text) ≡ true = ground arith in
    let p : peek_char src ≡ to_char (get_or text n 0) = peek-at text n src s ∙ (rw inside) in
    rw p (loop_test (get_or text n 0))

peek-end :
    (text : Bytes) (n : ℕ) (src : Source)
    → StandsAt text n src
    → length text ≤ n
    → (not (is_eof (peek_char src)) && is_space (peek_char src)) ≡ false
unfolding is_eof
peek-end text n src s le =
    let outside : ltb n (length text) ≡ false = ground arith in
    let p : peek_char src ≡ eof = peek-at text n src s ∙ (rw outside) in rw p

blanks-drop :
    (text : Bytes) (n : ℕ)
    → n < length text
    → n + blanks (drop n text)
      ≡ (if is_blank (get_or text n 0) then n + 1 + blanks (drop (n + 1) text) else n)
unfolding blanks
blanks-drop text n lt = rw (drop_cons n text 0 lt) (ground arith)

blanks-end : (text : Bytes) (n : ℕ) → length text ≤ n → n + blanks (drop n text) ≡ n
unfolding blanks
blanks-end text n le = rw (drop_all n text le) (omega arith)

skip_loop-StandsAt :
    (fuel : ℕ) (text : Bytes) (n : ℕ) (src : Source)
    → StandsAt text n src
    → length text - n < fuel
    → StandsAt text (n + blanks (drop n text)) (skip_loop fuel src)
unfolding skip_loop
skip_loop-StandsAt zero text n src s lt = elim lt [ ]
skip_loop-StandsAt (suc fuel) text n src s lt = elim (Bool-cases (ltb n (length text))) [
  | inl more ↦
      let inside : n < length text = ground arith in
      let step = next-at text n src s inside in
      let ih = skip_loop-StandsAt fuel text (n + 1) (next_char src).1 step.1 (omega arith) in
      elim (Bool-cases (is_blank (get_or text n 0))) [
        | inl e ↦ rw (peek-byte text n src s inside, blanks-drop text n inside, e) ih
        | inr e ↦ rw (peek-byte text n src s inside, blanks-drop text n inside, e) s
      ]
  | inr done ↦
      let outside : length text ≤ n = ground arith in
      rw (peek-end text n src s outside, blanks-end text n outside) s
]

-- skip_white_spaces() moves on by exactly the spaces and tabs that the rest of the text starts with;
-- the fuel of its loop is enough wherever it starts.
pub skip_white_spaces-StandsAt :
    (text : Bytes) (n : ℕ) (src : Source)
    → StandsAt text n src
    → StandsAt text (n + blanks (drop n text)) (skip_white_spaces src)
unfolding skip_white_spaces bufsize
skip_white_spaces-StandsAt text n src s = rw s.buffer (
    skip_loop-StandsAt (length text + 1) text n (record src { buffer = some text })
      (rw s.buffer at s) (omega arith))
