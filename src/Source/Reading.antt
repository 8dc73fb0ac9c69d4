-- ===== src/Source/Reading.antt =====
-- Reading, peeking and pushing back.
use layla_shell.Source.{
  Source, eof, to_char, byte_at, is_init, first_time, take_byte, advance, next_in, next_char,
  peek_in, peek_char,
}
use layla_shell.Prelude.Int.{ℤ, pos, negsuc, ◌+ℤ◌, ltb_ℤ}
use layla_shell.Prelude.Bytes.{Bytes}
use layla_shell.Prelude.{
  ℕ, ◌+◌, ◌<◌, ◌≤◌, ◌≡◌, refl, true, Option, none, some, arith, ◌==◌, length, get_or, ltb, ◌∙◌,
  if◌then◌else◌, Bool-cases, inl, inr,
}

-- a position that the reader can stand at
abbrev pub IsPos : ℤ → Type 0
IsPos (pos n) = Unit
IsPos (negsuc n) = n ≤ 1

byte_answer : (src : Source) (p : ℤ) (b : ℕ) → (take_byte src p b).0 ≡ to_char b
unfolding take_byte
byte_answer src p b = ground arith

next_in-peek_in :
    (src : Source) (o : Option Bytes) → IsPos src.curpos → (next_in src o).0 ≡ peek_in src.curpos o
unfolding next_in peek_in first_time advance take_byte is_init byte_at ◌+ℤ◌
next_in-peek_in src none p = refl
next_in-peek_in src (some text) p = ground arith

next_in-buffer : (s : Source) (o : Option Bytes) → (next_in s o).1.buffer ≡ s.buffer
unfolding next_in first_time advance take_byte
next_in-buffer s none = refl
next_in-buffer s (some text) = ground arith

next_in-IsPos : (s : Source) (o : Option Bytes) → IsPos s.curpos → IsPos (next_in s o).1.curpos
unfolding next_in first_time advance take_byte is_init ◌+ℤ◌
next_in-IsPos s none h = h
next_in-IsPos s (some text) h = ground arith

-- peek_char() tells the character that next_char() returns, the end of input included; next_char()
-- keeps the text and leaves the source at a position from which it can be read on.
pub peek-next :
    (src : Source)
    → IsPos src.curpos
    → ((next_char src).0 ≡ peek_char src)
      × ((next_char src).1.buffer ≡ src.buffer)
      × IsPos (next_char src).1.curpos
unfolding next_char peek_char
peek-next src p = (
  next_in-peek_in src src.buffer p,
  next_in-buffer src src.buffer,
  next_in-IsPos src src.buffer p,
)

-- the position that the next character is read from
abbrev pub next_pos : ℤ → ℤ
next_pos curpos = (if is_init curpos then curpos +ℤ pos 1 else curpos) +ℤ pos 1

-- `src` reads `text`, and `n` is the offset of the character that next_char() is to return
pub record StandsAt (text : Bytes) (n : ℕ) (src : Source) : Type 0 where
  pub buffer : src.buffer ≡ some text
  pub position : next_pos src.curpos ≡ pos n

peek_in-at :
    (text : Bytes) (n : ℕ) (curpos : ℤ)
    → next_pos curpos ≡ pos n
    → peek_in curpos (some text) ≡ (if ltb n (length text) then to_char (get_or text n 0) else eof)
unfolding peek_in
peek_in-at text n curpos e = rw e (unfold byte_at in ground arith)

-- Where the source stands at offset `n` of its text, peek_char() tells the character there, or EOF
-- if the text has no such offset.
pub peek-at :
    (text : Bytes) (n : ℕ) (src : Source)
    → StandsAt text n src
    → peek_char src ≡ (if ltb n (length text) then to_char (get_or text n 0) else eof)
unfolding peek_char
peek-at text n src s = rw s.buffer (peek_in-at text n src.curpos s.position)

first_time-pos : (src : Source) → (first_time src).curpos +ℤ pos 1 ≡ next_pos src.curpos
unfolding first_time is_init ◌+ℤ◌
first_time-pos src = ground arith

first_time-buffer : (src : Source) → (first_time src).buffer ≡ src.buffer
unfolding first_time
first_time-buffer src = ground arith

next_pos_suc : (n : ℕ) → next_pos (pos n) ≡ pos (n + 1)
unfolding is_init ◌+ℤ◌
next_pos_suc n = ground arith

take_byte-StandsAt :
    (text : Bytes) (n : ℕ) (src : Source) (b : ℕ)
    → src.buffer ≡ some text
    → StandsAt text (n + 1) (take_byte src (pos n) b).1
unfolding take_byte
take_byte-StandsAt text n src b e = elim (Bool-cases (b == b'\n')) [
  | inl nl ↦ rw nl (record { buffer = e; position = next_pos_suc n })
  | inr other ↦ rw other (record { buffer = e; position = next_pos_suc n })
]

advance-at :
    (text : Bytes) (n : ℕ) (src : Source)
    → src.buffer ≡ some text
    → src.curpos +ℤ pos 1 ≡ pos n
    → n < length text
    → ((advance src text).0 ≡ to_char (get_or text n 0))
      × StandsAt text (n + 1) (advance src text).1
unfolding advance
advance-at text n src b e lt =
    let inside : ltb_ℤ (pos n) (pos (length text)) ≡ true = ground arith in
    let at : byte_at text (pos n) ≡ get_or text n 0 = unfold byte_at in refl in
    rw (e, inside, at)
      (byte_answer src (pos n) (get_or text n 0), take_byte-StandsAt text n src (get_or text n 0) b)

pub next-at :
    (text : Bytes) (n : ℕ) (src : Source)
    → StandsAt text n src
    → n < length text
    → ((next_char src).0 ≡ to_char (get_or text n 0)) × StandsAt text (n + 1) (next_char src).1
unfolding next_char next_in
next-at text n src s lt = rw s.buffer (
    advance-at text n (first_time (record src { buffer = some text }))
      (first_time-buffer (record src { buffer = some text }))
      (first_time-pos (record src { buffer = some text }) ∙ s.position) lt)
