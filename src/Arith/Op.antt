-- ===== src/Arith/Op.antt =====
-- The operator table of src/shunt.c, and get_op(), which finds an operator at the start of a text.
use layla_shell.Prelude.Bytes.{Bytes}
use layla_shell.Prelude.{
  ℕ, ◌-◌, Bool, true, false, Option, none, some, [], ◌∷◌, ◌==◌, if◌then◌else◌,
}

-- the entries of `arithm_ops`, in their order
pub data Op : Type 0 where
  post_inc post_dec pre_inc pre_dec uminus uplus log_not bit_not : Op
  exp mult div mod_op add sub lsh rsh : Op
  lt le gt ge eq ne : Op
  bit_and bit_xor bit_or log_and log_or : Op
  assign assign_add assign_sub assign_mult assign_div assign_mod : Op
  assign_lsh assign_rsh assign_and assign_xor assign_or : Op
  lbrace rbrace comma : Op

pub data Assoc : Type 0 where
  assoc_none assoc_left assoc_right : Assoc

unfoldable pub prec : Op → ℕ
prec post_inc = 20
prec post_dec = 20
prec pre_inc = 19
prec pre_dec = 19
prec uminus = 19
prec uplus = 19
prec log_not = 19
prec bit_not = 19
prec exp = 18
prec mult = 17
prec div = 17
prec mod_op = 17
prec add = 16
prec sub = 16
prec lsh = 15
prec rsh = 15
prec lt = 14
prec le = 14
prec gt = 14
prec ge = 14
prec eq = 13
prec ne = 13
prec bit_and = 12
prec bit_xor = 11
prec bit_or = 10
prec log_and = 9
prec log_or = 8
prec lbrace = 0
prec rbrace = 0
prec comma = 0
prec _ = 7

unfoldable pub assoc : Op → Assoc
assoc pre_inc = assoc_right
assoc pre_dec = assoc_right
assoc uminus = assoc_right
assoc uplus = assoc_right
assoc log_not = assoc_right
assoc bit_not = assoc_right
assoc exp = assoc_right
assoc assign = assoc_right
assoc assign_add = assoc_right
assoc assign_sub = assoc_right
assoc assign_mult = assoc_right
assoc assign_div = assoc_right
assoc assign_mod = assoc_right
assoc assign_lsh = assoc_right
assoc assign_rsh = assoc_right
assoc assign_and = assoc_right
assoc assign_xor = assoc_right
assoc assign_or = assoc_right
assoc lbrace = assoc_none
assoc rbrace = assoc_none
assoc comma = assoc_none
assoc _ = assoc_left

unfoldable pub unary : Op → Bool
unary post_inc = true
unary post_dec = true
unary pre_inc = true
unary pre_dec = true
unary uminus = true
unary uplus = true
unary log_not = true
unary bit_not = true
unary _ = false

unfoldable pub chars : Op → ℕ
chars post_inc = 2
chars post_dec = 2
chars pre_inc = 2
chars pre_dec = 2
chars exp = 2
chars lsh = 2
chars rsh = 2
chars le = 2
chars ge = 2
chars eq = 2
chars ne = 2
chars log_and = 2
chars log_or = 2
chars assign_add = 2
chars assign_sub = 2
chars assign_mult = 2
chars assign_div = 2
chars assign_mod = 2
chars assign_lsh = 3
chars assign_rsh = 3
chars assign_and = 2
chars assign_xor = 2
chars assign_or = 2
chars _ = 1

-- `expr[i]`; behind the text stands the terminator
unfoldable pub at : Bytes → ℕ → ℕ
at [] i = 0
at (c ∷ s) i = if i == 0 then c else at s (i - 1)

-- the operator that one byte, the next and the one after it start with
unfoldable pub op_of : ℕ → ℕ → ℕ → Option Op
op_of c d e =
    if c == b'+'
    then some (if d == b'+' then post_inc else if d == b'=' then assign_add else add)
    else if c == b'-'
    then some (if d == b'-' then post_dec else if d == b'=' then assign_sub else sub)
    else if c == b'*'
    then some (if d == b'*' then exp else if d == b'=' then assign_mult else mult)
    else if c == b'<'
    then some (
        if d == b'<' then (if e == b'=' then assign_lsh else lsh) else if d == b'=' then le else lt)
    else if c == b'>'
    then some (
        if d == b'>' then (if e == b'=' then assign_rsh else rsh) else if d == b'=' then ge else gt)
    else if c == b'!'
    then some (if d == b'=' then ne else log_not)
    else if c == b'='
    then some (if d == b'=' then eq else assign)
    else if c == b'&'
    then some (if d == b'&' then log_and else if d == b'=' then assign_and else bit_and)
    else if c == b'|'
    then some (if d == b'|' then log_or else if d == b'=' then assign_or else bit_or)
    else if c == b'^'
    then some (if d == b'=' then assign_xor else bit_xor)
    else if c == b'/'
    then some (if d == b'=' then assign_div else div)
    else if c == b'%'
    then some (if d == b'=' then assign_mod else mod_op)
    else if c == b'~'
    then some bit_not
    else if c == b'('
    then some lbrace
    else if c == b')'
    then some rbrace
    else if c == b','
    then some comma
    else none

unfoldable pub get_op : Bytes → Option Op
get_op expr = op_of (at expr 0) (at expr 1) (at expr 2)
