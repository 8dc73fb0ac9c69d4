-- ===== src/HashTable/Fnv.antt =====
-- The FNV-1a hash of src/symtab/string_hash.c, on 32 bits.
use Prim.Native.Nat.{bit_xor}
use layla_shell.Prelude.Bytes.{Bytes}
use layla_shell.Prelude.{ℕ, ◌*◌, ◌%◌, ◌^◌, ◌<◌, ◌≡◌, refl, Option, none, some, [], ◌∷◌, ◌++◌, arith}

abbrev pub fnv1a_prime : ℕ
fnv1a_prime = 0x0100_0193

abbrev pub fnv1a_seed : ℕ
fnv1a_seed = 0x811c_9dc5

unfoldable pub fnv1a_hash_byte : ℕ → ℕ → ℕ
fnv1a_hash_byte b hash = bit_xor b hash * fnv1a_prime % 2 ^ 32

-- the loop `while(*p)`
unfoldable pub fnv1a_loop : Bytes → ℕ → ℕ
unfolding fnv1a_hash_byte
fnv1a_loop [] hash = hash
fnv1a_loop (b ∷ text) hash = fnv1a_loop text (fnv1a_hash_byte b hash)

unfoldable pub fnv1a : Option Bytes → ℕ → ℕ
unfolding fnv1a_loop
fnv1a none hash = 0
fnv1a (some text) hash = fnv1a_loop text hash

-- fnv1a() is incremental and stays on 32 bits: hashing a text in two pieces, the second from the
-- hash of the first, is hashing it whole, and from a 32-bit hash the result is a 32-bit hash.
pub fnv1a-append :
    (s t : Bytes) (hash : ℕ)
    → hash < 2 ^ 32
    → (fnv1a (some (s ++ t)) hash ≡ fnv1a (some t) (fnv1a (some s) hash))
      × (fnv1a (some s) hash < 2 ^ 32)
unfolding fnv1a
fnv1a-append [] t hash lt = (refl, lt)
fnv1a-append (b ∷ s) t hash lt = fnv1a-append s t (fnv1a_hash_byte b hash) (omega arith)
