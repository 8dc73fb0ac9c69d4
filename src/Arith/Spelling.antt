-- ===== src/Arith/Spelling.antt =====
-- How the operators of the table of src/shunt.c are written.
use layla_shell.Arith.Op.{
  Op, post_inc, post_dec, pre_inc, pre_dec, uminus, uplus, log_not, bit_not, exp, mult, div, mod_op,
  add, sub, lsh, rsh, lt, le, gt, ge, eq, ne, bit_and, bit_xor, bit_or, log_and, log_or, assign,
  assign_add, assign_sub, assign_mult, assign_div, assign_mod, assign_lsh, assign_rsh, assign_and,
  assign_xor, assign_or, lbrace, rbrace, comma, chars, at,
}
use layla_shell.Prelude.Bytes.{Bytes, codes}
use layla_shell.Prelude.{◌≡◌, Bool, true, false, ◌&&◌, [], ◌∷◌, arith, ◌==◌, length}

-- how each operator is written
unfoldable pub spelling : Op → Bytes
spelling post_inc = codes "++"
spelling post_dec = codes "--"
spelling pre_inc = codes "++"
spelling pre_dec = codes "--"
spelling uminus = codes "-"
spelling uplus = codes "+"
spelling log_not = codes "!"
spelling bit_not = codes "~"
spelling exp = codes "**"
spelling mult = codes "*"
spelling div = codes "/"
spelling mod_op = codes "%"
spelling add = codes "+"
spelling sub = codes "-"
spelling lsh = codes "<<"
spelling rsh = codes ">>"
spelling lt = codes "<"
spelling le = codes "<="
spelling gt = codes ">"
spelling ge = codes ">="
spelling eq = codes "=="
spelling ne = codes "!="
spelling bit_and = codes "&"
spelling bit_xor = codes "^"
spelling bit_or = codes "|"
spelling log_and = codes "&&"
spelling log_or = codes "||"
spelling assign = codes "="
spelling assign_add = codes "+="
spelling assign_sub = codes "-="
spelling assign_mult = codes "*="
spelling assign_div = codes "/="
spelling assign_mod = codes "%="
spelling assign_lsh = codes "<<="
spelling assign_rsh = codes ">>="
spelling assign_and = codes "&="
spelling assign_xor = codes "^="
spelling assign_or = codes "|="
spelling lbrace = codes "("
spelling rbrace = codes ")"
spelling comma = codes ","

unfoldable pub starts : Bytes → Bytes → Bool
starts [] s = true
starts (a ∷ p) [] = false
starts (a ∷ p) (b ∷ s) = a == b && starts p s

pub spelling-chars : (o : Op) → length (spelling o) ≡ chars o
unfolding spelling chars
spelling-chars o = ground arith

-- behind the end of the text stands the terminator, which no operator has in it
pub starts-at :
    (p : Op) (s : Bytes)
    → starts (spelling p) s ≡ starts (spelling p) (at s 0 ∷ at s 1 ∷ at s 2 ∷ [])
unfolding spelling starts at
starts-at p [] = ground arith
starts-at p (a ∷ []) = ground arith
starts-at p (a ∷ b ∷ []) = ground arith
starts-at p (a ∷ b ∷ c ∷ s) = ground arith
