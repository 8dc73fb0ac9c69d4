-- ===== src/Lib.antt =====
-- Layla Shell: a model of the shell's core, and what is proved of it.
--
-- Paths are from the repository's root. The parts that are modelled, and how they interact:
-- * Arith (src/shunt.c): arithmetic expansion. Op is the operator table and get_op(), Spelling and
--   Munch its specification; Digit and Number are get_ndigit() and get_num(), Numeral and Literal
--   say what they read. Machine has the two stacks and shunt_op(), generic in the functions of the
--   table; Run the loop of arithm_expand() behind its lexer, and its end. Grammar has the trees that
--   the table stands for, and Drain, Steps, Sim, Correct, Choose and Evaluate prove that the machine
--   computes them. Word has the table's functions on 64-bit numbers, Text their printing and
--   reading, Eval the functions on operands, with the error flag and the variables; Signed, Bits,
--   Division, Width, Assign and Readonly hold proofs about them. A C long is its bit pattern, below
--   2^64. Plain has the operands that take no nested expansion. A flag of the state tells that the
--   16 bytes of eval_assign_val() are overrun. The stacks have 64 places, as in the source.
--   print_digits has 20 steps, and a long at most 19 digits.
-- * Symtab (src/symtab/symtab.h, src/symtab/symtab_hash.c): Entry has the entries of the symbol
--   table and symtab_entry_setval(), Stack the stack of tables, their lookup and add_to_symtab(). An
--   entry is known by its address, and the tables are those of HashTable. set_special_var(),
--   get_special_var() and the nested arithm_expand() of a variable's text are parameters (Hooks):
--   nothing is assumed of them. The stack has 256 places, as in the source; a push onto a full one
--   has no result. Remove has the removal of entries and merge_global(). Keeps, Scope, Local and
--   Unlink hold proofs.
-- * Strings (src/strings.c): the helpers on C strings. A `char *` is `Option Bytes`, its bytes in
--   front of the NUL; a pointer into a string is an offset or the text from there on; a string that
--   is changed in place is returned. A flag `mem` says whether malloc() has the memory. Children:
--   Case (strupper, strlower), Search (strchr_any, chrcmp, is_same_str), Quote (quote_val), Join
--   (list_to_str), Colon (next_colon_entry), PathEntry (next_path_entry), Buffer
--   (check_buffer_bounds); Split holds the specification of separated fields.
-- * HashTable (src/symtab/string_hash.c): Fnv is the hash, Defs the table and its operations,
--   generic in the member of the entry's union; Bucket, Invariant and Laws hold the proofs. It
--   compares keys by is_same_str() of Strings.
-- * Strbuf (src/strbuf.c): the pool of shared strings over HashTable. Refs relates its counts to the
--   references that callers hold; History does so for any sequence of operations.
-- * Source (src/scanner/source.c): the reader of input sources, with the position and line pointers.
--   Positions are integers (Prelude.Int). Reading, Pushback, Whole and Blanks hold the proofs. The
--   loop of skip_white_spaces() has as much fuel as the text has bytes, and one more.
-- * Jobs (src/jobs.c, with `struct job_s` and the flags of src/include/cmd.h): Status is the words
--   that waitpid() reports and the bits of child_exitbits, Job one job, Table the table with the
--   current and the previous job, Removal remove_job() and remove_dead_jobs(), Dead the list of dead
--   processes, Notice notice_termination(), do_output_status() and check_on_children() over them,
--   Spec get_jobid(). Events has the events of job control as steps of a shell. Find, Pids, Exits,
--   Codes, Last, Current, Add, Sweep, Removed, Reap, Fine, Slots, Sane, History and Names hold
--   proofs. A null array is the empty list, a slot is its index, and `none` is NULL or -1. The 1
--   that is shifted through child_exitbits is an index of a bit, up to 31: the sign that the last
--   one is extended with is never read otherwise. rip_dead() reads and writes outside of its array
--   where it takes an entry off a full list, and has no result there. Events leaves out
--   do_pipeline() under lastpipe. The table has 255 slots and a job 32 places, as in the source.
--   remove_dead_jobs() has twice as many rounds as the table has slots, and one more: each looks at
--   the next slot or removes a job.
-- * Pattern (src/backend/pattern.c): has_glob_chars(), match_prefix() and match_suffix() over a test
--   of a string against the pattern, without a result for the empty string, behind which
--   match_prefix() reads, and the lists of ignored patterns over next_colon_entry() of Strings.
--   Extreme and Ignore hold proofs.
-- * Alphalist (src/alphalist.c) over Strings.Buffer, with the C library's qsort() as a parameter
--   that sorts, and Dstring (src/dstring.c), the strings that grow.
-- * Params (src/params.c, src/builtins/shift.c): $?, the positional parameters as a function from
--   their numbers, and the shift builtin, whose argument is read by strtol() of Arith. Shift, Joined
--   and Status hold proofs.
-- * Braces (src/braceexp.c): the ranges, in one set of loops for letters, 8 bits wide, and numbers,
--   64 bits wide; Range holds proofs. The loops that count the items take fuel and answer `none`
--   without it, since those of the source do not end for every range. What atol() reads is an
--   argument, and there is memory. Items has the string lists and their proofs.
-- * Umask (src/builtins/umask.c): the symbolic and the octal modes, and the output of `umask -S`;
--   Perform and Printed hold proofs. The loop of the symbolic mode takes fuel and answers `none`
--   without it, since the loop of the source does not end for every argument.
-- * Prelude holds what the parts share; Examples the tests.
--
-- Not modelled: of arithmetic expansion, the lexer's choice between numbers, names and operators, and
-- get_var(); of jobs, what is printed and the builtins that loop over the table; of patterns,
-- shell_pattern_to_regex(); of brace expansion, get_brace_list() and brace_expand(); of parameters,
-- the variables of a new shell; the tokenizer, the parser, word expansion, the executor, the other
-- builtins and the terminal, which are listed with their reasons in the manifest.
pub mod Prelude
pub mod Strings
pub mod HashTable
pub mod Strbuf
pub mod Symtab
pub mod Source
pub mod Jobs
pub mod Pattern
pub mod Dstring
pub mod Alphalist
pub mod Params
pub mod Umask
pub mod Braces
mod Examples
pub mod Arith
