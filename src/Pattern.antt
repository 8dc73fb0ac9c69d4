-- ===== src/Pattern.antt =====
-- The pattern matching of src/backend/pattern.c, over a test of a pattern against a string: `matches`
-- stands for match_pattern(), and in match_ignore() for match_filename(), both with their pattern, and so
-- for what fnmatch() or regexec() answer. No argument is NULL. An index of a string is its offset.
pub mod Extreme
pub mod Ignore
use layla_shell.Strings.Colon.{next_colon_entry}
use layla_shell.Prelude.Bytes.{Bytes}
use layla_shell.Prelude.{
  ℕ, zero, suc, ◌+◌, ◌-◌, ◌%◌, Bool, true, false, not, ◌&&◌, ◌||◌, Option, none, some, List, [],
  ◌∷◌, ◌==◌, if◌then◌else◌, take, drop, length,
}
use mathlib.Core.Option

-- the loop of has_glob_chars() over the first `len` characters; the counts of brackets are chars
unfoldable pub glob_loop : ℕ → Bytes → ℕ → ℕ → Bool
glob_loop zero p ob cb = not (ob == 0) && ob == cb
glob_loop (suc len) [] ob cb = not (ob == 0) && ob == cb
glob_loop (suc len) (c ∷ p) ob cb =
    if c == b'*' || c == b'?'
    then true
    else (if c == b'['
        then glob_loop len p ((ob + 1) % 256) cb
        else (if c == b']' then glob_loop len p ob ((cb + 1) % 256) else glob_loop len p ob cb))

unfoldable pub has_glob_chars : Bytes → ℕ → Bool
unfolding glob_loop
has_glob_chars p len = glob_loop len p 0 0

-- the results after the loops: lmatch, or smatch, or 0
unfoldable pub match_result : Option ℕ → Option ℕ → ℕ
match_result smatch (some l) = l
match_result (some s) none = s
match_result none none = 0

-- smatch keeps the first match
unfoldable pub first_match : Option ℕ → ℕ → Option ℕ
first_match none s = some s
first_match (some s0) s = some s0

-- whether the loop returns at a match: it is the first one, and the shortest is asked for
unfoldable pub returns : Bool → Option ℕ → Bool
returns longest none = not longest
returns longest (some s) = false

-- the loop of match_prefix(), at offset `s` with `n` characters left
unfoldable pub prefix_loop : (Bytes → Bool) → Bytes → Bool → ℕ → ℕ → Option ℕ → Option ℕ → ℕ
unfolding match_result first_match returns
prefix_loop matches str longest zero s smatch lmatch = match_result smatch lmatch
prefix_loop matches str longest (suc n) s smatch lmatch =
    let hit = prefix_loop matches str longest n (s + 1) (first_match smatch s) (some s) in
    let miss = prefix_loop matches str longest n (s + 1) smatch lmatch in
    if matches (take s str) then (if returns longest smatch then s else hit) else miss

-- the characters behind the first one; for the empty string the source reads behind its NUL, and there is
-- no result
unfoldable pub match_prefix : (Bytes → Bool) → Bytes → Bool → Option ℕ
unfolding prefix_loop
match_prefix matches [] longest = none
match_prefix matches (c ∷ str) longest =
    some (prefix_loop matches (c ∷ str) longest (length str) 1 none none)

-- the loop of match_suffix(), down from offset `s`
unfoldable pub suffix_loop : (Bytes → Bool) → Bytes → Bool → ℕ → Option ℕ → Option ℕ → ℕ
unfolding match_result first_match returns
suffix_loop matches str longest zero smatch lmatch = match_result smatch lmatch
suffix_loop matches str longest (suc s) smatch lmatch =
    let hit = suffix_loop matches str longest s (first_match smatch (suc s)) (some (suc s)) in
    let miss = suffix_loop matches str longest s smatch lmatch in
    if matches (drop (suc s) str) then (if returns longest smatch then suc s else hit) else miss

unfoldable pub match_suffix : (Bytes → Bool) → Bytes → Bool → ℕ
unfolding suffix_loop
match_suffix matches str longest = suffix_loop matches str longest (length str - 1) none none

-- the loop of match_ignore() over the entries of the pattern list, with memory for each
unfoldable pub ignore_loop : ℕ → (Bytes → Bool) → Bytes → Bool
unfolding next_colon_entry
ignore_loop zero matches pattern = false
ignore_loop (suc fuel) matches pattern =
    let next = next_colon_entry true pattern in
    let rest = ignore_loop fuel matches next.1 in
    elim next.0 [ none ↦ false | some s ↦ if matches s then true else rest ]

-- an entry takes at least one character of the list
unfoldable pub match_ignore : (Bytes → Bool) → Bytes → Bool
unfolding ignore_loop
match_ignore matches pattern = ignore_loop (length pattern + 1) matches pattern

-- the loop at the end of get_filename_matches(), which takes the ignored names out of the array
unfoldable pub drop_ignored : (Bytes → Bool) → List Bytes → List Bytes
drop_ignored ignored [] = []
drop_ignored ignored (name ∷ names) =
    if ignored name then drop_ignored ignored names else name ∷ drop_ignored ignored names

-- the result of match_filename() from that of fnmatch(), 0 for a match; `ignore` asks for $FIGNORE, which
-- is `fignore` if it is set, and `ignored` whether it ignores the string
unfoldable pub match_filename : ℕ → Bool → Option Bytes → (Bytes → Bool) → ℕ
match_filename zero true (some fignore) ignored = if ignored fignore then 0 else 1
match_filename zero true none ignored = 1
match_filename zero false fignore ignored = 1
match_filename (suc res) ignore fignore ignored = 0
