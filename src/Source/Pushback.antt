-- ===== src/Source/Pushback.antt =====
-- unget_char() undoes the move of next_char().
use native.Mathlib.Numerals.{add-one}
use layla_shell.Source.{
  Source, is_init, to_char, next_char, peek_char, prev_in, prev_char, unget_line, is_zero,
  unget_char,
}
use layla_shell.Source.Reading.{StandsAt, next_pos, peek-at, next-at}
use layla_shell.Prelude.Int.{ℤ, pos, negsuc, ◌+ℤ◌, ◌-ℤ◌, ltb_ℤ}
use layla_shell.Prelude.Bytes.{Bytes}
use layla_shell.Prelude.{
  ℕ, ◌+◌, ◌<◌, ◌≡◌, refl, false, Option, none, some, arith, sym, ◌∙◌, length, get_or, ap,
  Bool-cases, inl, inr,
}

unget_line-keeps :
    (src : Source) (o : Option Bytes) (p : ℤ)
    → ((unget_line src o p).buffer ≡ src.buffer) × ((unget_line src o p).curpos ≡ src.curpos)
unfolding unget_line
unget_line-keeps src none p = (refl, refl)
unget_line-keeps src (some text) (pos p) = (refl, refl)
unget_line-keeps src (some text) (negsuc p) = (refl, refl)

pos_of_next : (c : ℤ) (n : ℕ) → next_pos c ≡ pos (n + 1) → c ≡ pos n
unfolding is_init ◌+ℤ◌
pos_of_next c n h = ground arith

next_pos-pred : (n : ℕ) → next_pos (pos n -ℤ pos 1) ≡ pos n
unfolding is_init ◌+ℤ◌ ◌-ℤ◌
next_pos-pred n = ground arith

unget-keeps :
    (src : Source) (n : ℕ)
    → src.curpos ≡ pos n
    → ((unget_char src).buffer ≡ src.buffer) × ((unget_char src).curpos ≡ pos n -ℤ pos 1)
unfolding unget_char
unget-keeps src n e =
    let s : Source = record src { curpos = src.curpos -ℤ pos 1; curchar = src.curchar -ℤ pos 1 } in
    let inside : ltb_ℤ src.curpos (pos 0) ≡ false = rw e (ground arith) in
    let moved : s.curpos ≡ pos n -ℤ pos 1 = rw e in
    elim (Bool-cases (is_zero s.curchar)) [
      | inl first ↦
          let (b, p) = unget_line-keeps s s.buffer s.curpos in rw (inside, first) (b, p ∙ moved)
      | inr other ↦ rw (inside, other) (refl, moved)
    ]

-- Pushing a character back makes it the next one: from where the text stands at the offset behind
-- it, unget_char() goes to its own offset.
pub unget-StandsAt :
    (text : Bytes) (n : ℕ) (src : Source)
    → StandsAt text (n + 1) src
    → StandsAt text n (unget_char src)
unget-StandsAt text n src s =
    let (b, p) = unget-keeps src n (pos_of_next src.curpos n s.position) in
    record { buffer = b ∙ s.buffer; position = rw p (next_pos-pred n) }

-- A character that was read and pushed back is peeked at and read again, and the source stands
-- where it stood in its text.
pub unget-next :
    (text : Bytes) (n : ℕ) (src : Source)
    → StandsAt text n src
    → n < length text
    → let s = unget_char (next_char src).1 in
      StandsAt text n s × (peek_char s ≡ peek_char src) × ((next_char s).0 ≡ (next_char src).0)
unget-next text n src at lt =
    let step = next-at text n src at lt in
    let back = unget-StandsAt text n (next_char src).1 step.1 in
    (
      back,
      peek-at text n (unget_char (next_char src).1) back ∙ sym (peek-at text n src at),
      (next-at text n (unget_char (next_char src).1) back lt).0 ∙ sym step.0,
    )

-- prev_char() tells the character in front of the one that was read last.
pub prev-at :
    (text : Bytes) (n : ℕ) (src : Source)
    → StandsAt text (n + 2) src
    → prev_char src ≡ to_char (get_or text n 0)
unfolding prev_char
prev-at text n src s =
    let p : src.curpos ≡ pos (n + 1) =
      pos_of_next src.curpos (n + 1) (s.position ∙ ap pos (omega arith)) in
    rw (s.buffer, p, add-one) (unfold prev_in in refl)
