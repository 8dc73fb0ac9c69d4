-- ===== src/Strings/Case.antt =====
-- strupper() and strlower() of src/strings.c. The string is changed in place, so the new contents
-- come back beside the result; `none` is the NULL pointer. `toupper` and `tolower` are those of the
-- C locale.
use layla_shell.Prelude.Bytes.{Bytes}
use layla_shell.Prelude.{
  ℕ, ◌+◌, ◌-◌, ◌≡◌, refl, ◌&&◌, Option, none, some, [], ◌∷◌, arith, leb, if◌then◌else◌, length, ap,
  suc,
}

unfoldable pub toupper : ℕ → ℕ
toupper c = if leb b'a' c && leb c b'z' then c - 32 else c

unfoldable pub tolower : ℕ → ℕ
tolower c = if leb b'A' c && leb c b'Z' then c + 32 else c

-- the loops `while(*str)`
unfoldable pub upper_loop : Bytes → Bytes
unfolding toupper
upper_loop [] = []
upper_loop (c ∷ s) = toupper c ∷ upper_loop s

unfoldable pub lower_loop : Bytes → Bytes
unfolding tolower
lower_loop [] = []
lower_loop (c ∷ s) = tolower c ∷ lower_loop s

unfoldable pub strupper : Option Bytes → ℕ × Option Bytes
unfolding upper_loop
strupper none = (0, none)
strupper (some str) = (1, some (upper_loop str))

unfoldable pub strlower : Option Bytes → ℕ × Option Bytes
unfolding lower_loop
strlower none = (0, none)
strlower (some str) = (1, some (lower_loop str))

lower-upper : (s : Bytes) → lower_loop (upper_loop s) ≡ lower_loop s
unfolding lower_loop upper_loop
lower-upper [] = refl
lower-upper (c ∷ s) = ground (arith, lower-upper s)

upper-lower : (s : Bytes) → upper_loop (lower_loop s) ≡ upper_loop s
unfolding lower_loop upper_loop
upper-lower [] = refl
upper-lower (c ∷ s) = ground (arith, upper-lower s)

-- Whichever of the two conversions ran first is forgotten: strlower() after strupper() gives the
-- result and the string of strlower() alone, and strupper() after strlower() those of strupper(),
-- on every string and on the NULL pointer.
pub strlower-strupper :
    (str : Option Bytes)
    → (strlower (strupper str).1 ≡ strlower str) × (strupper (strlower str).1 ≡ strupper str)
unfolding strlower strupper
strlower-strupper none = (refl, refl)
strlower-strupper (some s) = (ground (arith, lower-upper s), ground (arith, upper-lower s))

pub length-upper_loop : (s : Bytes) → length (upper_loop s) ≡ length s
unfolding upper_loop
length-upper_loop [] = refl
length-upper_loop (c ∷ s) = ap suc (length-upper_loop s)
