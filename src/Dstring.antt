-- ===== src/Dstring.antt =====
-- The dynamic strings of src/dstring.c. `buf` has the bytes before the final NUL, and is `none` for the
-- NULL pointer; `buf_size` is the size of the memory behind it, into which the NUL has to fit, too. `mem`
-- says whether malloc() or realloc() has the memory.
use mathlib.Core.Option
use layla_shell.Prelude.Bytes.{Bytes}
use layla_shell.Prelude.{
  ℕ, zero, suc, ◌+◌, ◌*◌, ◌<◌, ◌≡◌, refl, ap, ◌↔◌, Bool, true, false, Option, none, some, [], ◌∷◌,
  ◌++◌, arith, ltb, if◌then◌else◌, length, length-append, Bool-cases, inl, inr,
}

-- INIT_BUF_SIZE
abbrev pub init_buf_size : ℕ
init_buf_size = 1024

pub record Dstring : Type 0 where
  pub buf : Option Bytes
  pub buf_size : ℕ
  pub buf_len : ℕ

unfoldable pub init_str : Bool → Dstring → ℕ → ℕ × Dstring
init_str false s size = (0, record s { buf = none })
init_str true s size = (1, record { buf = some []; buf_size = size; buf_len = 0 })

-- strncpy(): `n` bytes of the string, and NULs behind its end
unfoldable pub copy_bytes : Bytes → ℕ → Bytes
copy_bytes str zero = []
copy_bytes [] (suc n) = 0 ∷ copy_bytes [] n
copy_bytes (c ∷ str) (suc n) = c ∷ copy_bytes str n

-- the copy at the end of str_append()
unfoldable pub append_bytes : Dstring → Bytes → Bytes → ℕ → ℕ × Dstring
unfolding copy_bytes
append_bytes s buf str n =
    (1, record s { buf = some (buf ++ copy_bytes str n); buf_len = s.buf_len + n })

-- a string with a buffer: it is doubled, once, if the bytes do not fit
unfoldable pub append_to : Bool → Dstring → Bytes → Bytes → ℕ → ℕ × Dstring
unfolding append_bytes
append_to mem s buf str n =
    if ltb (s.buf_len + n) s.buf_size
    then append_bytes s buf str n
    else (if mem then append_bytes (record s { buf_size = s.buf_size * 2 }) buf str n else (0, s))

unfoldable pub append_first : ℕ × Dstring → Bytes → ℕ → ℕ × Dstring
unfolding append_bytes
append_first (zero, s) str n = (0, s)
append_first (suc ok, s) str n = append_bytes s [] str n

unfoldable pub append_in : Bool → Dstring → Option Bytes → Bytes → ℕ → ℕ × Dstring
unfolding append_to append_first init_str
append_in mem s (some buf) str n = append_to mem s buf str n
append_in mem s none str n =
    append_first (init_str mem s (if ltb init_buf_size n then n else init_buf_size)) str n

unfoldable pub str_append : Bool → Dstring → Bytes → ℕ → ℕ × Dstring
unfolding append_in
str_append mem s str n = append_in mem s s.buf str n

unfoldable pub free_str : Dstring → Dstring
free_str s = record { buf = none; buf_size = 0; buf_len = 0 }

-- the bytes and their NUL fit the buffer, if there is one
abbrev pub FitsBuffer : Dstring → Option Bytes → Type 0
FitsBuffer s none = Unit
FitsBuffer s (some buf) = (length buf ≡ s.buf_len) × (s.buf_len < s.buf_size)

length-copy_bytes : (str : Bytes) (n : ℕ) → length (copy_bytes str n) ≡ n
unfolding copy_bytes
length-copy_bytes str zero = refl
length-copy_bytes [] (suc n) = ap suc (length-copy_bytes [] n)
length-copy_bytes (c ∷ str) (suc n) = ap suc (length-copy_bytes str n)

-- how much str_append() has room for: less than the first buffer, or than twice the buffer it has
abbrev pub room : Dstring → Option Bytes → ℕ
room s none = init_buf_size
room s (some buf) = s.buf_size * 2

abbrev pub used : Dstring → Option Bytes → ℕ
used s none = 0
used s (some buf) = s.buf_len

append_to-fits :
    (s : Dstring) (buf str : Bytes) (n : ℕ)
    → FitsBuffer s (some buf)
    → let r = append_to true s buf str n in
      (r.0 ≡ 1)
      × (r.1.buf ≡ some (buf ++ copy_bytes str n))
      × (FitsBuffer r.1 r.1.buf ↔ (s.buf_len + n < s.buf_size * 2))
unfolding append_to append_bytes
append_to-fits s buf str n h =
    let sizes = length-copy_bytes str n in
    let total = length-append buf (copy_bytes str n) in
    elim (Bool-cases (ltb (s.buf_len + n) s.buf_size)) [
      | inl e ↦ rw e (refl, refl, (λ f. ground arith, λ lt. ground (arith, sizes, total)))
      | inr e ↦ rw e (refl, refl, (λ f. ground arith, λ lt. ground (arith, sizes, total)))
    ]

append_first-fits :
    (s : Dstring) (str : Bytes) (n : ℕ)
    → let r = append_in true s none str n in
      (r.0 ≡ 1)
      × (r.1.buf ≡ some (copy_bytes str n))
      × (FitsBuffer r.1 r.1.buf ↔ (n < init_buf_size))
unfolding append_in append_first append_bytes init_str
append_first-fits s str n =
    let sizes = length-copy_bytes str n in
    elim (Bool-cases (ltb init_buf_size n)) [
      | inl e ↦ rw e (refl, refl, (λ f. ground arith, λ lt. absurd (ground arith)))
      | inr e ↦ rw e (refl, refl, (λ f. ground arith, λ lt. ground (arith, sizes)))
    ]

append_in-fits :
    (s : Dstring) (o : Option Bytes) (str : Bytes) (n : ℕ)
    → FitsBuffer s o
    → let r = append_in true s o str n in
      (r.0 ≡ 1)
      × (r.1.buf ≡ some (Option.get_or o [] ++ copy_bytes str n))
      × (FitsBuffer r.1 r.1.buf ↔ (used s o + n < room s o))
unfolding append_in
append_in-fits s none str n h =
    let (ok, buf, fits) = append_first-fits s str n in
    (ok, buf, (λ f. omega (arith, fits.0 f), λ lt. fits.1 (omega arith)))
append_in-fits s (some buf) str n h = append_to-fits s buf str n h

-- str_append() on a well-formed string, with memory, returns 1 and appends the bytes, and the result fits
-- its buffer exactly if the length after it is below the size of the first buffer, or twice the size of
-- the buffer that is there.
pub str_append_fits_iff :
    (s : Dstring) (str : Bytes) (n : ℕ)
    → FitsBuffer s s.buf
    → let r = str_append true s str n in
      (r.0 ≡ 1)
      × (r.1.buf ≡ some (Option.get_or s.buf [] ++ copy_bytes str n))
      × (FitsBuffer r.1 r.1.buf ↔ (used s s.buf + n < room s s.buf))
unfolding str_append
str_append_fits_iff s str n h = append_in-fits s s.buf str n h
