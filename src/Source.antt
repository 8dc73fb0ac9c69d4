-- ===== src/Source.antt =====
-- src/scanner/source.c: reading characters of an input source, with pushback. Positions are
-- integers, since a fresh source stands at -2 and one pushed back to its start at -1.
pub mod Reading
pub mod Pushback
pub mod Whole
pub mod Blanks
use layla_shell.Prelude.Int.{ℤ, pos, negsuc, ◌+ℤ◌, ◌-ℤ◌, ltb_ℤ}
use layla_shell.Prelude.Bytes.{Bytes}
use layla_shell.Prelude.{
  ℕ, zero, suc, ◌+◌, ◌-◌, ◌<◌, ◌≡◌, Bool, true, false, not, ◌&&◌, ◌||◌, Option, none, some, List,
  [], ◌∷◌, ◌==◌, ltb, leb, length, get_or, if◌then◌else◌,
}

-- the text and the pointers of `struct source_s`; `none` is a NULL buffer. `bufsize` is the number
-- of the bytes of the text.
pub record Source : Type 0 where
  pub buffer : Option Bytes
  pub curline : ℤ
  pub curchar : ℤ
  pub curpos : ℤ
  pub curlinestart : ℤ

abbrev pub init_src_pos : ℤ
init_src_pos = negsuc 1

abbrev pub eof : ℤ
eof = negsuc 0

abbrev pub errchar : ℤ
errchar = pos 0

-- a byte as a (signed) `char`
unfoldable pub to_char : ℕ → ℤ
to_char b = if ltb b 128 then pos b else negsuc (255 - b)

unfoldable pub bufsize : Option Bytes → ℕ
bufsize none = 0
bufsize (some text) = length text

-- `buffer[pos]`, at a position inside the text
unfoldable pub byte_at : Bytes → ℤ → ℕ
byte_at text (pos n) = get_or text n 0
byte_at text (negsuc n) = 0

unfoldable pub is_init : ℤ → Bool
is_init (pos n) = false
is_init (negsuc n) = n == 1

unfoldable pub is_space : ℤ → Bool
is_space (pos c) = c == b' ' || c == b'\t'
is_space (negsuc c) = false

unfoldable pub is_eof : ℤ → Bool
is_eof (pos c) = false
is_eof (negsuc c) = c == 0

-- the pointers before the first character
unfoldable pub first_time : Source → Source
first_time src =
    if is_init src.curpos
    then record src { curline = pos 1; curchar = pos 1; curpos = negsuc 0; curlinestart = pos 0 }
    else src

-- the end of next_char(): the position is known, and the byte there is `b`
unfoldable pub take_byte : Source → ℤ → ℕ → ℤ × Source
take_byte src curpos b =
    if b == b'\n'
    then (
      to_char b,
      record src {
        curline = src.curline +ℤ pos 1;
        curchar = pos 1;
        curpos = curpos;
        curlinestart = curpos;
      },
    )
    else (to_char b, record src { curchar = src.curchar +ℤ pos 1; curpos = curpos })

unfoldable pub advance : Source → Bytes → ℤ × Source
advance src text =
    let curpos = src.curpos +ℤ pos 1 in
    if ltb_ℤ curpos (pos (length text))
    then take_byte src curpos (byte_at text curpos)
    else (eof, record src { curpos = pos (length text) })

unfoldable pub next_in : Source → Option Bytes → ℤ × Source
next_in src none = (errchar, src)
next_in src (some text) = advance (first_time src) text

unfoldable pub next_char : Source → ℤ × Source
next_char src = next_in src src.buffer

unfoldable pub peek_in : ℤ → Option Bytes → ℤ
peek_in curpos none = errchar
peek_in curpos (some text) =
    let at = (if is_init curpos then curpos +ℤ pos 1 else curpos) +ℤ pos 1 in
    if ltb_ℤ at (pos (length text)) then to_char (byte_at text at) else eof

unfoldable pub peek_char : Source → ℤ
peek_char src = peek_in src.curpos src.buffer

unfoldable pub prev_in : ℤ → Option Bytes → ℤ
prev_in curpos none = errchar
prev_in (pos zero) (some text) = errchar
prev_in (pos (suc n)) (some text) = to_char (get_or text n 0)
prev_in (negsuc n) (some text) = errchar

unfoldable pub prev_char : Source → ℤ
prev_char src = prev_in src.curpos src.buffer

-- the loop back to the newline before `p`, or to the start
unfoldable pub line_start : Bytes → ℕ → ℕ
line_start text zero = 0
line_start text (suc p) =
    let rest = line_start text p in if get_or text (suc p) 0 == b'\n' then suc p else rest

-- the pointers of the previous line, from the new position
unfoldable pub unget_line : Source → Option Bytes → ℤ → Source
unget_line src none p = record src { curline = src.curline -ℤ pos 1 }
unget_line src (some text) (pos p) = record src {
  curline = src.curline -ℤ pos 1;
  curchar = pos p -ℤ pos (line_start text p);
  curlinestart = pos (line_start text p);
}
unget_line src (some text) (negsuc n) = record src {
  curline = src.curline -ℤ pos 1;
  curchar = pos 0;
  curlinestart = negsuc n;
}

unfoldable pub is_zero : ℤ → Bool
is_zero (pos n) = n == 0
is_zero (negsuc n) = false

unfoldable pub unget_char : Source → Source
unget_char src =
    if ltb_ℤ src.curpos (pos 0)
    then src
    else let s = record src { curpos = src.curpos -ℤ pos 1; curchar = src.curchar -ℤ pos 1 } in
      if is_zero s.curchar then unget_line s s.buffer s.curpos else s

-- `while(((c = peek_char(src)) != EOF) && (is_space(c))) next_char(src);` on fuel
unfoldable pub skip_loop : ℕ → Source → Source
skip_loop zero src = src
skip_loop (suc fuel) src =
    let rest = skip_loop fuel (next_char src).1 in
    let c = peek_char src in if not (is_eof c) && is_space c then rest else src

-- each round moves on by one byte of the text
unfoldable pub skip_white_spaces : Source → Source
skip_white_spaces src = skip_loop (bufsize src.buffer + 1) src
