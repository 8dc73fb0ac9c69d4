-- ===== src/Strings/PathEntry.antt =====
-- next_path_entry() of src/strings.c, by which $PATH and $CDPATH are searched. The caller's pointer
-- into the list is the text from there on; `mem` says whether malloc() has the memory.
use layla_shell.Strings.Split.{
  before, from, skip, fields, fields-skip, fields_cons, skip-head, length-skip-le, length-from-le,
  StartsOther,
}
use layla_shell.Prelude.Bytes.{Bytes}
use layla_shell.Prelude.{
  ℕ, zero, suc, ◌+◌, ◌<◌, ◌≤◌, ◌≡◌, refl, Bool, true, false, Option, none, some, List, [], ◌∷◌,
  ◌++◌, arith, ◌==◌, length, length-append, if◌then◌else◌, map, Bool-cases, inl, inr,
}

-- `path[plen-1]`
unfoldable pub last_byte : ℕ → Bytes → ℕ
last_byte c [] = c
last_byte c (d ∷ s) = last_byte d s

-- the path segment, with what is put between it and the file name
unfoldable pub segment : Bool → Bytes → Bytes
unfolding last_byte
segment use_dot [] = if use_dot then b'.' ∷ b'/' ∷ [] else []
segment use_dot (c ∷ s) = if last_byte c s == b'/' then c ∷ s else c ∷ s ++ b'/' ∷ []

unfoldable pub path_of : Bool → Bytes → Bytes → Bytes
unfolding segment
path_of use_dot filename entry = segment use_dot entry ++ filename

-- `tlen`, the size that is allocated
unfoldable pub path_size : Bytes → Bytes → ℕ
path_size entry filename = length entry + length filename + 3

unfoldable pub next_path_entry : Bool → Option Bytes → Bytes → Bool → Option Bytes × Option Bytes
next_path_entry mem none filename use_dot = (none, none)
next_path_entry mem (some []) filename use_dot = (none, some [])
next_path_entry false (some s1) filename use_dot = (none, some s1)
next_path_entry true (some (c ∷ s)) filename use_dot =
    (some (path_of use_dot filename (before b':' (c ∷ s))), some (skip b':' (from b':' (c ∷ s))))

-- the callers' loop `while((path = next_path_entry(&p, file, use_dot)))`
unfoldable pub path_entries : ℕ → Bytes → Bytes → Bool → List Bytes
path_entries zero s filename use_dot = []
path_entries (suc fuel) s filename use_dot =
    let (path, rest) = next_path_entry true (some s) filename use_dot in
    elim path [
      | none ↦ []
      | some p ↦ p ∷ elim rest [ none ↦ [] | some t ↦ path_entries fuel t filename use_dot ]
    ]

length-segment-le :
    (use_dot : Bool) (entry : Bytes) → length (segment use_dot entry) ≤ length entry + 2
unfolding segment
length-segment-le use_dot [] = ground arith
length-segment-le use_dot (c ∷ s) = ground (arith, length-append (c ∷ s) (b'/' ∷ []))

-- The path of next_path_entry() and its terminator fit the block that it allocates.
pub next_path_entry-fits :
    (s filename : Bytes) (use_dot : Bool) (path : Bytes)
    → (next_path_entry true (some s) filename use_dot).0 ≡ some path
    → length path + 1 ≤ path_size (before b':' s) filename
unfolding next_path_entry path_size path_of
next_path_entry-fits [] filename use_dot path h = cc
next_path_entry-fits (c ∷ s) filename use_dot path h =
    let entry = before b':' (c ∷ s) in
    let same : segment use_dot entry ++ filename ≡ path = cc in
    rw (← same) (
      omega
        (arith, length-append (segment use_dot entry) filename, length-segment-le use_dot entry))

next-plain :
    (c : ℕ) (s filename : Bytes) (use_dot : Bool)
    → (c == b':') ≡ false
    → next_path_entry true (some (c ∷ s)) filename use_dot
      ≡ (some (path_of use_dot filename (c ∷ before b':' s)), some (skip b':' (from b':' s)))
unfolding next_path_entry before from
next-plain c s filename use_dot e = rw e

next-colon :
    (c : ℕ) (s filename : Bytes) (use_dot : Bool)
    → (c == b':') ≡ true
    → next_path_entry true (some (c ∷ s)) filename use_dot
      ≡ (some (path_of use_dot filename []), some (skip b':' s))
unfolding next_path_entry before from skip
next-colon c s filename use_dot e = rw (e, e)

fields_colon : (c : ℕ) (s : Bytes) → (c == b':') ≡ true → fields b':' (c ∷ s) ≡ fields b':' s
unfolding fields
fields_colon c s e = rw e

-- an empty entry at the start of the list
unfoldable pub leading : Bytes → List Bytes
leading [] = []
leading (c ∷ s) = if c == b':' then [] ∷ [] else []

entries-started :
    (fuel : ℕ) (s filename : Bytes) (use_dot : Bool)
    → length s < fuel
    → StartsOther b':' s
    → path_entries fuel s filename use_dot ≡ map (path_of use_dot filename) (fields b':' s)
unfolding path_entries
entries-started zero s filename use_dot lt h = elim lt [ ]
entries-started (suc fuel) [] filename use_dot lt h = unfold next_path_entry fields in refl
entries-started (suc fuel) (c ∷ s) filename use_dot lt h =
    let next = skip b':' (from b':' s) in
    let shorter : length next < fuel =
      omega (arith, length-skip-le b':' (from b':' s), length-from-le b':' s) in
    ground (
      arith,
      next-plain c s filename use_dot h,
      entries-started fuel next filename use_dot shorter (skip-head b':' (from b':' s)),
      fields-skip b':' (from b':' s),
      fields_cons b':' c s h,
    )

-- Searching a path list with next_path_entry() tries its entries that are not empty, in their order,
-- each joined to the file name. Of the empty entries only one at the very start is tried (as `./`
-- if `use_dot` is set); those between two colons and at the end are passed over.
pub path_entries_lem :
    (fuel : ℕ) (s filename : Bytes) (use_dot : Bool)
    → length s < fuel
    → path_entries fuel s filename use_dot
      ≡ map (path_of use_dot filename) (leading s ++ fields b':' s)
unfolding leading
path_entries_lem fuel [] filename use_dot lt = entries-started fuel [] filename use_dot lt tt
path_entries_lem zero (c ∷ s) filename use_dot lt = elim lt [ ]
path_entries_lem (suc fuel) (c ∷ s) filename use_dot lt = elim (Bool-cases (c == b':')) [
  | inr e ↦ rw e (entries-started (suc fuel) (c ∷ s) filename use_dot lt e)
  | inl e ↦
      let next = skip b':' s in
      let shorter : length next < fuel = omega (arith, length-skip-le b':' s) in
      unfold path_entries in
      ground (
        arith,
        next-colon c s filename use_dot e,
        entries-started fuel next filename use_dot shorter (skip-head b':' s),
        fields-skip b':' s,
        fields_colon c s e,
      )
]
