-- ===== src/Umask/Printed.antt =====
-- The text of `umask -S` of src/builtins/umask.c as the argument of the builtin.
use layla_shell.Umask.{
  Who, PermAction, mask, failed, is_action, perm_loop, perm_text, get_perm, perform, actions_loop,
  skip_commas, get_who, who_loop, clause_who, symbolic_loop, print_bits, print_symbolic, or_bits,
}
use layla_shell.Umask.Perform.{
  Class, others, groups, users, low_bit_of, selects, acted, bit_after, perform-bit_after, twice,
  test_bit_up,
}
use layla_shell.Arith.Bits.{test_bit}
use layla_shell.Arith.Word.{bitwise, of_bool}
use layla_shell.Prelude.Bytes.{Bytes}
use layla_shell.Prelude.{
  ℕ, zero, suc, ◌+◌, ◌*◌, ◌<◌, ◌≡◌, refl, sym, Bool, true, false, ◌||◌, ◌++◌, Option, none, some,
  [], ◌∷◌, arith, ap, ◌∙◌, if◌then◌else◌, length,
}

-- the rwx_letters of one class, and its permissions
rwx_letters : Bool → Bool → Bool → Bytes
rwx_letters r w x =
    (if r then b'r' ∷ [] else []) ++ (if w then b'w' ∷ [] else []) ++ (if x then b'x' ∷ [] else [])

unfoldable class_perm : Bool → Bool → Bool → ℕ
unfolding of_bool
class_perm r w x = 4 * of_bool r + 2 * of_bool w + of_bool x

-- what follows a clause
next_clause : Option Bytes → Bytes
next_clause none = []
next_clause (some s) = b',' ∷ s

perm_loop-next_clause :
    (cur p : ℕ) (t : Option Bytes) → perm_loop cur (next_clause t) p ≡ some (p, next_clause t)
unfolding perm_loop next_clause
perm_loop-next_clause cur p none = refl
perm_loop-next_clause cur p (some s) = refl

perm_text-rwx_letters :
    (cur : ℕ) (r w x : Bool) (t : Option Bytes)
    → (r || w || x) ≡ true
    → perm_text cur (rwx_letters r w x ++ next_clause t) ≡ some (class_perm r w x, next_clause t)
unfolding perm_text perm_loop rwx_letters class_perm or_bits of_bool bitwise
perm_text-rwx_letters cur true true true t h = perm_loop-next_clause cur 7 t
perm_text-rwx_letters cur true true false t h = perm_loop-next_clause cur 6 t
perm_text-rwx_letters cur true false true t h = perm_loop-next_clause cur 5 t
perm_text-rwx_letters cur true false false t h = perm_loop-next_clause cur 4 t
perm_text-rwx_letters cur false true true t h = perm_loop-next_clause cur 3 t
perm_text-rwx_letters cur false true false t h = perm_loop-next_clause cur 2 t
perm_text-rwx_letters cur false false true t h = perm_loop-next_clause cur 1 t
perm_text-rwx_letters cur false false false t h = ground arith

abbrev sets : Bool → Bool → Bool → Bytes → PermAction
sets r w x s = record { op = b'='; perm = class_perm r w x; rest = s }

get_perm-rwx_letters :
    (cur : ℕ) (r w x : Bool) (t : Option Bytes)
    → (r || w || x) ≡ true
    → get_perm cur (b'=' ∷ (rwx_letters r w x ++ next_clause t)) ≡ some (sets r w x (next_clause t))
unfolding get_perm is_action
get_perm-rwx_letters cur r w x t h = rw (perm_text-rwx_letters cur r w x t h) refl

actions_loop-next_clause :
    (fuel : ℕ) (who : Who) (cur : ℕ) (t : Option Bytes)
    → actions_loop (suc fuel) who cur (next_clause t) ≡ some (cur, next_clause t)
unfolding actions_loop next_clause is_action
actions_loop-next_clause fuel who cur none = refl
actions_loop-next_clause fuel who cur (some s) = refl

actions_loop-rwx_letters :
    (fuel : ℕ) (who : Who) (cur : ℕ) (r w x : Bool) (t : Option Bytes)
    → (r || w || x) ≡ true
    → actions_loop (suc (suc fuel)) who cur (b'=' ∷ (rwx_letters r w x ++ next_clause t))
      ≡ some (perform who cur (sets r w x (next_clause t)), next_clause t)
unfolding actions_loop is_action
actions_loop-rwx_letters fuel who cur r w x t h =
    rw (get_perm-rwx_letters cur r w x t h) (actions_loop-next_clause fuel who _ t)

-- a clause for one class
only : Class → Who
only users = record { user = true; group = false; other = false }
only groups = record { user = false; group = true; other = false }
only others = record { user = false; group = false; other = true }

letter : Class → ℕ
letter users = b'u'
letter groups = b'g'
letter others = b'o'

clause_who-letter :
    (c : Class) (s : Bytes) → clause_who (letter c ∷ b'=' ∷ s) ≡ some (only c, b'=' ∷ s)
unfolding clause_who get_who who_loop is_action letter only
clause_who-letter users s = refl
clause_who-letter groups s = refl
clause_who-letter others s = refl

symbolic_loop_step :
    (fuel cur v : ℕ) (l : ℕ) (s rest : Bytes) (who : Who) (acts : Bytes)
    → clause_who (l ∷ s) ≡ some (who, acts)
    → actions_loop (length acts + 1) who cur acts ≡ some (v, rest)
    → symbolic_loop (suc fuel) cur (l ∷ s) ≡ symbolic_loop fuel v (skip_commas rest)
unfolding symbolic_loop
symbolic_loop_step fuel cur v l s rest who acts h_who h_acts =
    ap
      (λ (o : Option (Who × Bytes)). elim o [
        | none ↦ some (failed 1)
        | some w ↦ elim (actions_loop (length w.1 + 1) w.0 cur w.1) [
          | none ↦ some (failed 2)
          | some r ↦ symbolic_loop fuel r.0 (skip_commas r.1)
        ]
      ])
      h_who
    ∙ ap
        (λ (o : Option (ℕ × Bytes)). elim o [
          | none ↦ some (failed 2)
          | some r ↦ symbolic_loop fuel r.0 (skip_commas r.1)
        ])
        h_acts

symbolic_loop_clause :
    (fuel cur : ℕ) (c : Class) (r w x : Bool) (t : Option Bytes)
    → (r || w || x) ≡ true
    → symbolic_loop (suc fuel) cur (letter c ∷ b'=' ∷ (rwx_letters r w x ++ next_clause t))
      ≡ symbolic_loop fuel
          (perform (only c) cur (sets r w x (next_clause t)))
          (skip_commas (next_clause t))
symbolic_loop_clause fuel cur c r w x t h =
    let enough : length (b'=' ∷ (rwx_letters r w x ++ next_clause t)) + 1
        ≡ suc (suc (length (rwx_letters r w x ++ next_clause t))) =
      omega arith in
    symbolic_loop_step fuel cur _ (letter c) _ _ (only c) _
      (clause_who-letter c (rwx_letters r w x ++ next_clause t))
      (rw enough (actions_loop-rwx_letters _ (only c) cur r w x t h))

-- the permissions of a class, as bits of a whole mask
unfoldable pub bit_of : ℕ → Class → ℕ → Bool
bit_of n c k = test_bit (low_bit_of c + k) n

class_letters : ℕ → Class → Bytes
unfolding bit_of rwx_letters
class_letters n c = rwx_letters (bit_of n c 2) (bit_of n c 1) (bit_of n c 0)

class_sets : ℕ → Class → Bytes → PermAction
unfolding bit_of
class_sets n c s = sets (bit_of n c 2) (bit_of n c 1) (bit_of n c 0) s

-- every class has a permission
unfoldable pub GivesAll : ℕ → Type 0
unfolding bit_of
GivesAll n = (c : Class) → (bit_of n c 2 || bit_of n c 1 || bit_of n c 0) ≡ true

print_symbolic-class_letters :
    (n : ℕ)
    → print_symbolic n
      ≡ letter users
        ∷ b'='
        ∷ (class_letters n users
            ++ b','
              ∷ letter groups
              ∷ b'='
              ∷ (class_letters n groups ++ b',' ∷ letter others ∷ b'=' ∷ class_letters n others))
unfolding print_symbolic print_bits class_letters rwx_letters letter bit_of low_bit_of
print_symbolic-class_letters n =
    let up : (k : ℕ) → test_bit (3 + (3 + k)) (n * 64) ≡ test_bit k n =
      λ k. rw (twice n) (test_bit_up (n * 8) (3 + k) ∙ test_bit_up n k) in
    rw (test_bit_up n 5, test_bit_up n 4, test_bit_up n 3, up 2, up 1, up 0) refl

class_perm_bits :
    (r w x : Bool)
    → (class_perm r w x < 8)
      × (test_bit 0 (class_perm r w x) ≡ x)
      × (test_bit 1 (class_perm r w x) ≡ w)
      × (test_bit 2 (class_perm r w x) ≡ r)
unfolding class_perm of_bool test_bit
class_perm_bits true true true = (omega arith, refl, refl, refl)
class_perm_bits true true false = (omega arith, refl, refl, refl)
class_perm_bits true false true = (omega arith, refl, refl, refl)
class_perm_bits true false false = (omega arith, refl, refl, refl)
class_perm_bits false true true = (omega arith, refl, refl, refl)
class_perm_bits false true false = (omega arith, refl, refl, refl)
class_perm_bits false false true = (omega arith, refl, refl, refl)
class_perm_bits false false false = (omega arith, refl, refl, refl)

class_perm-bit_of :
    (n : ℕ) (c : Class) (k : ℕ) (s : Bytes)
    → k < 3
    → test_bit k (class_sets n c s).perm ≡ bit_of n c k
unfolding class_sets
class_perm-bit_of n c zero s h = (class_perm_bits (bit_of n c 2) (bit_of n c 1) (bit_of n c 0)).1
class_perm-bit_of n c (suc zero) s h =
    (class_perm_bits (bit_of n c 2) (bit_of n c 1) (bit_of n c 0)).2
class_perm-bit_of n c (suc (suc zero)) s h =
    (class_perm_bits (bit_of n c 2) (bit_of n c 1) (bit_of n c 0)).3
class_perm-bit_of n c (suc (suc (suc k))) s h = absurd (omega arith)

-- a clause for a class sets its bits, and leaves the others
perform-bit_of :
    (n cur : ℕ) (c d : Class) (k : ℕ) (s : Bytes)
    → k < 3
    → bit_of (perform (only d) cur (class_sets n d s)) c k
      ≡ (if selects (only d) c then bit_of n d k else bit_of cur c k)
unfolding bit_of class_sets bit_after acted
perform-bit_of n cur c d k s h =
    perform-bit_after (only d) c k cur (class_sets n d s) h
      (class_perm_bits (bit_of n d 2) (bit_of n d 1) (bit_of n d 0)).0
    ∙ ap (λ b. bit_after (only d) c b'=' b (bit_of cur c k)) (class_perm-bit_of n d k s h)

chosen_bits :
    (n cur : ℕ) (c : Class) (k : ℕ) (s1 s2 s3 : Bytes)
    → k < 3
    → bit_of
        (perform
          (only others)
          (perform
            (only groups)
            (perform (only users) cur (class_sets n users s1))
            (class_sets n groups s2))
          (class_sets n others s3))
        c
        k
      ≡ bit_of n c k
unfolding only selects
chosen_bits n cur others k s1 s2 s3 h = perform-bit_of n _ others others k s3 h
chosen_bits n cur groups k s1 s2 s3 h =
    perform-bit_of n _ groups others k s3 h ∙ perform-bit_of n _ groups groups k s2 h
chosen_bits n cur users k s1 s2 s3 h =
    perform-bit_of n _ users others k s3 h
    ∙ perform-bit_of n _ users groups k s2 h
    ∙ perform-bit_of n cur users users k s1 h

append_nil : (s : Bytes) → s ++ [] ≡ s
append_nil [] = refl
append_nil (c ∷ s) = ap (λ t. c ∷ t) (append_nil s)

after_comma :
    (c : Class) (s : Bytes) → skip_commas (next_clause (some (letter c ∷ s))) ≡ letter c ∷ s
unfolding skip_commas next_clause letter
after_comma users s = refl
after_comma groups s = refl
after_comma others s = refl

-- a clause of the text, in front of another one and at the end
symbolic_loop_next :
    (fuel cur n : ℕ) (c d : Class) (s : Bytes)
    → GivesAll n
    → symbolic_loop (suc fuel) cur (letter c ∷ b'=' ∷ (class_letters n c ++ b',' ∷ letter d ∷ s))
      ≡ symbolic_loop fuel
          (perform (only c) cur (class_sets n c (b',' ∷ letter d ∷ s)))
          (letter d ∷ s)
unfolding GivesAll class_letters class_sets next_clause
symbolic_loop_next fuel cur n c d s h =
    symbolic_loop_clause fuel cur c (bit_of n c 2) (bit_of n c 1) (bit_of n c 0)
      (some (letter d ∷ s)) (h c)
    ∙ ap (symbolic_loop fuel _) (after_comma d s)

symbolic_loop_last :
    (fuel cur n : ℕ) (c : Class)
    → GivesAll n
    → symbolic_loop (suc (suc fuel)) cur (letter c ∷ b'=' ∷ class_letters n c)
      ≡ some (mask (perform (only c) cur (class_sets n c [])))
unfolding GivesAll class_letters class_sets next_clause symbolic_loop skip_commas
symbolic_loop_last fuel cur n c h =
    ap (λ s. symbolic_loop (suc (suc fuel)) cur (letter c ∷ b'=' ∷ s))
      (sym (append_nil (class_letters n c)))
    ∙ symbolic_loop_clause (suc fuel) cur c (bit_of n c 2) (bit_of n c 1) (bit_of n c 0) none (h c)

-- What `umask -S` prints for a mask is accepted as an argument of umask, provided that each class has a
-- permission: the symbolic mode ends, and each permission bit of what it sets is as in the mask, whatever
-- the mask was before.
pub symbolic_loop-print_symbolic :
    (fuel cur n : ℕ)
    → GivesAll n
    → (new : ℕ) × (symbolic_loop (suc (suc (suc (suc fuel)))) cur (print_symbolic n)
        ≡ some (mask new))
      × ((c : Class) (k : ℕ) → k < 3 → bit_of new c k ≡ bit_of n c k)
symbolic_loop-print_symbolic fuel cur n h = (
  _,
  ap (symbolic_loop (suc (suc (suc (suc fuel)))) cur) (print_symbolic-class_letters n)
      ∙ symbolic_loop_next (suc (suc (suc fuel))) cur n users groups _ h
      ∙ symbolic_loop_next (suc (suc fuel)) _ n groups others _ h
      ∙ symbolic_loop_last fuel _ n others h,
  λ c k lt. chosen_bits n cur c k _ _ _ lt,
)
