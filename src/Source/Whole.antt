-- ===== src/Source/Whole.antt =====
-- Reading an input source to its end.
use layla_shell.Source.{Source, to_char, is_eof, eof, next_char, is_init}
use layla_shell.Source.Reading.{StandsAt, IsPos, next_pos, peek-at, next-at, peek-next}
use layla_shell.Prelude.Int.{ℤ, pos, negsuc, ◌+ℤ◌}
use layla_shell.Prelude.Bytes.{Bytes}
use layla_shell.Prelude.{
  ℕ, zero, suc, ◌+◌, ◌-◌, ◌<◌, ◌≤◌, ◌≡◌, false, List, [], ◌∷◌, arith, ltb, ◌∙◌, ap, map, length,
  drop, drop_cons, drop_all, get_or, All, if◌then◌else◌, Bool-cases, inl, inr,
}

-- `while((c = next_char(src)) != EOF)`, with what it reads
unfoldable pub read_text : ℕ → Source → List ℤ
unfolding is_eof
read_text zero src = []
read_text (suc fuel) src =
    let rest = read_text fuel (next_char src).1 in
    let c = (next_char src).0 in if is_eof c then [] else c ∷ rest

is_eof-to_char : (b : ℕ) → b < 255 → is_eof (to_char b) ≡ false
unfolding is_eof to_char
is_eof-to_char b h = ground arith

pub IsPos-at : (c : ℤ) (n : ℕ) → next_pos c ≡ pos n → IsPos c
unfolding is_init ◌+ℤ◌
IsPos-at (pos m) n h = tt
IsPos-at (negsuc m) n h = ground arith

next-end :
    (text : Bytes) (n : ℕ) (src : Source)
    → StandsAt text n src
    → length text ≤ n
    → (next_char src).0 ≡ eof
next-end text n src s h =
    let ended : ltb n (length text) ≡ false = ground arith in
    (peek-next src (IsPos-at src.curpos n s.position)).0 ∙ peek-at text n src s ∙ (rw ended)

All-get : (text : Bytes) (n : ℕ) → All (λ b. b < 255) text → n < length text → get_or text n 0 < 255
All-get [] n h lt = elim lt [ ]
All-get (b ∷ text) zero h lt = h.0
All-get (b ∷ text) (suc n) h lt = All-get text n h.1 (omega arith)

-- Reading on from any offset until EOF gives the rest of the text, character by character, if no
-- byte of the text is 255; as many reads as there are bytes left, and one, are enough.
pub read_text-drop :
    (fuel : ℕ) (text : Bytes) (n : ℕ) (src : Source)
    → StandsAt text n src
    → All (λ b. b < 255) text
    → length text - n < fuel
    → read_text fuel src ≡ map to_char (drop n text)
unfolding read_text
read_text-drop zero text n src s h lt = elim lt [ ]
read_text-drop (suc fuel) text n src s h lt = elim (Bool-cases (ltb n (length text))) [
  | inl more ↦
      let inside : n < length text = ground arith in
      let step = next-at text n src s inside in
      let c = is_eof-to_char (get_or text n 0) (All-get text n h inside) in
      rw (step.0, c, drop_cons n text 0 inside)
        (ap (λ (l : List ℤ). to_char (get_or text n 0) ∷ l)
          (read_text-drop fuel text (n + 1) (next_char src).1 step.1 h (omega arith)))
  | inr done ↦
      let outside : length text ≤ n = ground arith in
      rw (next-end text n src s outside, drop_all n text outside)
]

-- A byte 255 is read as EOF: at any such byte of a text next_char() returns what it returns at the
-- end of input.
pub next-byte_255 :
    (text : Bytes) (n : ℕ) (src : Source)
    → StandsAt text n src
    → n < length text
    → get_or text n 0 ≡ 255
    → (next_char src).0 ≡ eof
unfolding to_char
next-byte_255 text n src s lt h = (next-at text n src s lt).0 ∙ (rw h)
