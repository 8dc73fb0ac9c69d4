-- ===== src/Pattern/Ignore.antt =====
-- Which names the colon-separated lists of patterns of src/backend/pattern.c ignore.
use layla_shell.Pattern.{ignore_loop, match_ignore}
use layla_shell.Strings.Colon.{next_colon_entry, colon_entries, colon_entries-fields}
use layla_shell.Strings.Split.{fields}
use layla_shell.Prelude.Bytes.{Bytes}
use layla_shell.Prelude.{
  ℕ, zero, suc, ◌+◌, ◌≡◌, refl, ap, ◌∙◌, Bool, true, false, List, [], ◌∷◌, if◌then◌else◌, arith,
  length,
}

-- whether a pattern of a list matches
unfoldable pub any_matches : (Bytes → Bool) → List Bytes → Bool
any_matches matches [] = false
any_matches matches (s ∷ patterns) = if matches s then true else any_matches matches patterns

ignore_loop-any_matches :
    (fuel : ℕ) (matches : Bytes → Bool) (pattern : Bytes)
    → ignore_loop fuel matches pattern ≡ any_matches matches (colon_entries fuel pattern)
unfolding ignore_loop any_matches colon_entries
ignore_loop-any_matches zero matches pattern = refl
ignore_loop-any_matches (suc fuel) matches pattern =
    ground (arith, ignore_loop-any_matches fuel matches (next_colon_entry true pattern).1)

-- match_ignore() ends, and ignores a name exactly if one of the non-empty fields of the list matches it.
pub match_ignore-any_matches :
    (matches : Bytes → Bool) (pattern : Bytes)
    → match_ignore matches pattern ≡ any_matches matches (fields b':' pattern)
unfolding match_ignore
match_ignore-any_matches matches pattern =
    ignore_loop-any_matches (length pattern + 1) matches pattern
    ∙ ap (any_matches matches) (colon_entries-fields (length pattern + 1) pattern (omega arith))
