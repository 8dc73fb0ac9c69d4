-- ===== src/Examples/Source.antt =====
-- Inputs for the reader of src/scanner/source.c.
use layla_shell.Source.{
  Source, init_src_pos, to_char, next_char, peek_char, unget_char, skip_white_spaces, is_init,
  first_time, take_byte, advance, next_in, peek_in, byte_at, skip_loop, is_space, bufsize,
}
use layla_shell.Source.Reading.{StandsAt}
use layla_shell.Source.Pushback.{unget-next}
use layla_shell.Source.Whole.{read_text, read_text-drop}
use layla_shell.Source.Blanks.{blanks, skip_white_spaces-StandsAt}
use layla_shell.Prelude.Int.{pos, ◌+ℤ◌}
use layla_shell.Prelude.Bytes.{Bytes, codes}
use layla_shell.Prelude.{◌+◌, ◌≡◌, refl, some, arith, map, drop}

program : Unit {0}
unfolding next_char peek_char is_init first_time take_byte advance next_in peek_in byte_at skip_loop
    is_space bufsize to_char ◌+ℤ◌ read_text skip_white_spaces blanks
program = tt

abbrev fresh : Bytes → Source
fresh text = record {
  buffer = some text;
  curline = pos 0;
  curchar = pos 0;
  curpos = init_src_pos;
  curlinestart = pos 0;
}

fresh-StandsAt : (text : Bytes) → StandsAt text 0 (fresh text)
unfolding program
fresh-StandsAt text = record { buffer = refl; position = refl }

unget-next_example :
    let s = unget_char (next_char (fresh (codes "ls"))).1 in
    StandsAt (codes "ls") 0 s
    × (peek_char s ≡ peek_char (fresh (codes "ls")))
    × ((next_char s).0 ≡ (next_char (fresh (codes "ls"))).0)
unget-next_example =
    unget-next (codes "ls") 0 (fresh (codes "ls")) (fresh-StandsAt (codes "ls")) (omega arith)

read_text-drop_example : read_text 3 (fresh (codes "ls")) ≡ map to_char (drop 0 (codes "ls"))
read_text-drop_example =
    read_text-drop 3 (codes "ls") 0 (fresh (codes "ls")) (fresh-StandsAt (codes "ls")) (omega arith)
      (omega arith)

skip_white_spaces-StandsAt_example :
    StandsAt
      (codes "  ls")
      (0 + blanks (drop 0 (codes "  ls")))
      (skip_white_spaces (fresh (codes "  ls")))
skip_white_spaces-StandsAt_example =
    skip_white_spaces-StandsAt (codes "  ls") 0 (fresh (codes "  ls"))
      (fresh-StandsAt (codes "  ls"))
