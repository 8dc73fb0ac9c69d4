-- ===== src/Examples/Strings.antt =====
-- Inputs for the string helpers of src/strings.c.
use layla_shell.Strings.Case.{strupper, strlower, strlower-strupper}
use layla_shell.Strings.Search.{chrcmp, is_same_str, strchr_any}
use layla_shell.Strings.Quote.{
  quote_val, quote_str, copy_escaped, quote_size, read_quoted, read-quote_val,
}
use layla_shell.Strings.Split.{split, fields, before, from, skip, nonempty}
use layla_shell.Strings.Join.{list_to_str, print_items, cut_last, total_len}
use layla_shell.Strings.Colon.{next_colon_entry, take_entry, colon_entries, colon_entries-fields}
use layla_shell.Strings.PathEntry.{
  next_path_entry, path_entries, path_of, segment, leading, path_size, path_entries_lem,
  next_path_entry-fits,
}
use layla_shell.Strings.Buffer.{NameBuffer, check_buffer_bounds}
use mathlib.Core.Option
use layla_shell.Prelude.Bytes.{codes}
use layla_shell.Prelude.{
  ◌+◌, ◌≤◌, ◌≡◌, ◌≢◌, refl, true, false, none, some, [], ◌∷◌, ◌++◌, map, arith, length,
}

program : Unit {0}
unfolding strupper strlower chrcmp is_same_str strchr_any quote_val quote_str copy_escaped
    quote_size read_quoted split fields before from skip nonempty list_to_str print_items cut_last
    total_len next_colon_entry take_entry colon_entries next_path_entry path_entries path_of segment
    leading path_size check_buffer_bounds
program = tt

quote_runs : quote_val true (some (codes "a$b")) true false ≡ some (codes "\"a\\$b\"")
unfolding program
quote_runs = refl

colon_runs : colon_entries 9 (codes ":a::bc:") ≡ codes "a" ∷ codes "bc" ∷ []
unfolding program
colon_runs = refl

path_runs :
    path_entries 20 (codes "/bin::/usr/bin/") (codes "ls") true
    ≡ codes "/bin/ls" ∷ codes "/usr/bin/ls" ∷ []
unfolding program
path_runs = refl

join_runs : list_to_str true (some (codes "ls" ∷ codes "-l" ∷ [])) ≡ some (codes "ls -l")
unfolding program
join_runs = refl

strlower-strupper_example :
    (strlower (strupper (some (codes "aZ"))).1 ≡ strlower (some (codes "aZ")))
    × (strupper (strlower (some (codes "aZ"))).1 ≡ strupper (some (codes "aZ")))
strlower-strupper_example = strlower-strupper (some (codes "aZ"))

read-quote_val_example :
    read_quoted (codes "\"a\\$b\"" ++ codes " c")
    ≡ some (Option.get_or (some (codes "a$b")) [], codes " c")
read-quote_val_example =
    read-quote_val (some (codes "a$b")) false (codes " c") (codes "\"a\\$b\"") quote_runs

two_words : codes "ls" ∷ codes "-l" ∷ [] ≢ []
two_words = λ e. cc

colon_entries-fields_example : colon_entries 9 (codes ":a::bc:") ≡ fields b':' (codes ":a::bc:")
colon_entries-fields_example = colon_entries-fields 9 (codes ":a::bc:") (omega arith)

path_entries_lem_example :
    path_entries 20 (codes ":/bin::/usr/bin/") (codes "ls") true
    ≡ map
        (path_of true (codes "ls"))
        (leading (codes ":/bin::/usr/bin/") ++ fields b':' (codes ":/bin::/usr/bin/"))
path_entries_lem_example =
    path_entries_lem 20 (codes ":/bin::/usr/bin/") (codes "ls") true (omega arith)

next_path_entry-fits_example :
    length (codes "/bin/ls") + 1 ≤ path_size (before b':' (codes "/bin:/x")) (codes "ls")
next_path_entry-fits_example =
    next_path_entry-fits (codes "/bin:/x") (codes "ls") true (codes "/bin/ls")
      (unfold program in refl)

abbrev full_buffer : NameBuffer
full_buffer = record { count = 0; len = 0; items = none }
