-- ===== src/Strings/Buffer.antt =====
-- check_buffer_bounds() of src/strings.c, which the alphabetic lists and the completion of host and
-- user names grow their arrays with. `items` is the used part of the array, `none` the NULL pointer;
-- `mem` says whether malloc() or realloc() has the memory.
use mathlib.Core.Option
use layla_shell.Prelude.Bytes.{Bytes}
use layla_shell.Prelude.{
  ℕ, ◌*◌, ◌%◌, ◌^◌, ◌<◌, ◌≤◌, ◌≡◌, Bool, true, false, Option, none, some, List, [], arith, leb,
  length, ◌⊎◌, if◌then◌else◌,
}

pub record NameBuffer : Type 0 where
  pub count : ℕ
  pub len : ℕ
  pub items : Option (List Bytes)

-- the branch of a full buffer; `<< 1` is on 32 bits
unfoldable pub grow : Bool → NameBuffer → Option (List Bytes) → ℕ × NameBuffer
grow false b items = (0, b)
grow true b none = (1, record b { items = some []; len = 32 })
grow true b (some xs) = (1, record b { len = b.len * 2 % 2 ^ 32 })

unfoldable pub check_buffer_bounds : Bool → NameBuffer → ℕ × NameBuffer
unfolding grow
check_buffer_bounds mem b = if leb b.len b.count then grow mem b b.items else (1, b)

abbrev pub FitsItems : NameBuffer → Option (List Bytes) → Type 0
FitsItems b none = (b.count ≡ 0) × (b.len ≡ 0)
FitsItems b (some xs) = (length xs ≡ b.count) × (b.count ≤ b.len) × (32 ≤ b.len)

pub record IsValid (b : NameBuffer) : Type 0 where
  pub fits : FitsItems b b.items

-- check_buffer_bounds() on a well-formed buffer of fewer than 2^30 slots: if it returns 1, there is a
-- free slot behind the used ones, the buffer is well formed, and it holds the same items; if it
-- returns 0, which needs a failed allocation, the buffer is as before.
pub check_buffer_bounds_lem :
    (mem : Bool) (b : NameBuffer)
    → IsValid b
    → b.len < 2 ^ 30
    → let r = check_buffer_bounds mem b in
      ((r.0 ≡ 1)
        × IsValid r.1
        × (r.1.count < r.1.len)
        × (r.1.count ≡ b.count)
        × (Option.get_or r.1.items [] ≡ Option.get_or b.items []))
      ⊎ ((r.0 ≡ 0) × (mem ≡ false) × (r.1 ≡ b))
unfolding check_buffer_bounds
check_buffer_bounds_lem mem b v lt = ground arith
