-- ===== src/Umask/Perform.antt =====
-- What an action of the symbolic mode of src/builtins/umask.c does to each permission bit.
use layla_shell.Umask.{Who, PermAction, or_bits, clear_bits, apply_class, apply_action, perform}
use layla_shell.Arith.Bits.{test_bit, bitwise-test_bit}
use layla_shell.Prelude.{
  ℕ, zero, suc, ◌+◌, ◌*◌, ◌/◌, ◌<◌, ◌≡◌, refl, Bool, true, false, not, ◌&&◌, ◌||◌, ◌==◌, arith, ap,
  ◌∙◌, if◌then◌else◌, sym, Bool-cases, ==_iff, inl, inr,
}

-- the classes in the order of their bits
pub data Class : Type 0 where
  others : Class
  groups : Class
  users : Class

unfoldable pub low_bit_of : Class → ℕ
low_bit_of others = 0
low_bit_of groups = 3
low_bit_of users = 6

unfoldable pub selects : Who → Class → Bool
selects who others = who.other
selects who groups = who.group
selects who users = who.user

-- a bit after `+`, `=` or `-` with the permission `new`
unfoldable pub acted : ℕ → Bool → Bool → Bool
acted op new old = if op == b'+' then old || new else (if op == b'=' then new else old && not new)

or_bits-test_bit : (i a b : ℕ) → i < 64 → test_bit i (or_bits a b) ≡ (test_bit i a || test_bit i b)
unfolding or_bits
or_bits-test_bit i a b h = bitwise-test_bit (λ x y. x || y) 64 i a b h

clear_bits-test_bit :
    (i a b : ℕ) → i < 64 → test_bit i (clear_bits a b) ≡ (test_bit i a && not (test_bit i b))
unfolding clear_bits
clear_bits-test_bit i a b h = bitwise-test_bit (λ x y. x && not y) 64 i a b h

or_false : (b : Bool) → (b || false) ≡ b
or_false true = refl
or_false false = refl

and_true : (b : Bool) → (b && true) ≡ b
and_true true = refl
and_true false = refl

and_false_or : (b p : Bool) → (b && false || p) ≡ p
and_false_or true p = refl
and_false_or false p = refl

-- a bit in a class that is changed
switch_in :
    (add set : Bool) (i cur m p : ℕ)
    → i < 64
    → test_bit i m ≡ true
    → test_bit i (
        if add
        then or_bits cur p
        else (if set then or_bits (clear_bits cur m) p else clear_bits cur p))
      ≡ (if add
          then test_bit i cur || test_bit i p
          else (if set then test_bit i p else test_bit i cur && not (test_bit i p)))
switch_in true set i cur m p h hm = or_bits-test_bit i cur p h
switch_in false false i cur m p h hm = clear_bits-test_bit i cur p h
switch_in false true i cur m p h hm =
    rw (or_bits-test_bit i (clear_bits cur m) p h, clear_bits-test_bit i cur m h, hm)
      (and_false_or (test_bit i cur) (test_bit i p))

apply_class_in :
    (sel : Bool) (i op cur m p : ℕ)
    → i < 64
    → test_bit i m ≡ true
    → test_bit i (apply_class sel op cur m p)
      ≡ (if sel then acted op (test_bit i p) (test_bit i cur) else test_bit i cur)
unfolding apply_class acted
apply_class_in false i op cur m p h hm = refl
apply_class_in true i op cur m p h hm = switch_in (op == b'+') (op == b'=') i cur m p h hm

-- a bit in another class
switch_out :
    (add set : Bool) (i cur m p : ℕ)
    → i < 64
    → test_bit i m ≡ false
    → test_bit i p ≡ false
    → test_bit i (
        if add
        then or_bits cur p
        else (if set then or_bits (clear_bits cur m) p else clear_bits cur p))
      ≡ test_bit i cur
switch_out true set i cur m p h hm hp =
    rw (or_bits-test_bit i cur p h, hp) (or_false (test_bit i cur))
switch_out false false i cur m p h hm hp =
    rw (clear_bits-test_bit i cur p h, hp) (and_true (test_bit i cur))
switch_out false true i cur m p h hm hp =
    rw (or_bits-test_bit i (clear_bits cur m) p h, clear_bits-test_bit i cur m h, hm, hp)
      (or_false (test_bit i cur && true) ∙ and_true (test_bit i cur))

apply_class_out :
    (sel : Bool) (i op cur m p : ℕ)
    → i < 64
    → test_bit i m ≡ false
    → test_bit i p ≡ false
    → test_bit i (apply_class sel op cur m p) ≡ test_bit i cur
unfolding apply_class
apply_class_out false i op cur m p h hm hp = refl
apply_class_out true i op cur m p h hm hp = switch_out (op == b'+') (op == b'=') i cur m p h hm hp

-- the bits of a class, and where the masks and the shifted permissions stand
part : Class → ℕ → ℕ
part others n = n
part groups n = n * 8
part users n = n * 64

pub test_bit_up : (n k : ℕ) → test_bit (3 + k) (n * 8) ≡ test_bit k n
unfolding test_bit
test_bit_up n k =
    let three : 3 + k ≡ suc (suc (suc k)) = omega arith in
    let eighth : n * 8 / 2 / 2 / 2 ≡ n = omega arith in
    ap (λ i. test_bit i (n * 8)) three ∙ ap (test_bit k) eighth

test_bit_zero : (k : ℕ) → test_bit k 0 ≡ false
unfolding test_bit
test_bit_zero zero = refl
test_bit_zero (suc k) = test_bit_zero k

test_bit_above : (n k : ℕ) → n < 8 → test_bit (3 + k) n ≡ false
unfolding test_bit
test_bit_above n k h =
    let three : 3 + k ≡ suc (suc (suc k)) = omega arith in
    let none_left : n / 2 / 2 / 2 ≡ 0 = omega arith in
    ap (λ i. test_bit i n) three ∙ ap (test_bit k) none_left ∙ test_bit_zero k

test_bit_below : (n k : ℕ) → k < 3 → test_bit k (n * 8) ≡ false
unfolding test_bit
test_bit_below n zero h = ground arith
test_bit_below n (suc zero) h = ground arith
test_bit_below n (suc (suc zero)) h = ground arith
test_bit_below n (suc (suc (suc k))) h = absurd (omega arith)

pub twice : (n : ℕ) → n * 64 ≡ n * 8 * 8
twice n = omega arith

six : (k : ℕ) → 6 + k ≡ 3 + (3 + k)
six k = omega arith

part_here : (c : Class) (n k : ℕ) → test_bit (low_bit_of c + k) (part c n) ≡ test_bit k n
unfolding part low_bit_of
part_here others n k = let start : 0 + k ≡ k = omega arith in rw start refl
part_here groups n k = test_bit_up n k
part_here users n k = rw (six k, twice n) (test_bit_up (n * 8) (3 + k) ∙ test_bit_up n k)

part_elsewhere :
    (c d : Class) (n k : ℕ)
    → n < 8
    → k < 3
    → (c ≡ d → ⊥)
    → test_bit (low_bit_of c + k) (part d n) ≡ false
unfolding part low_bit_of
part_elsewhere others groups n k hn hk ne = test_bit_below n (0 + k) (omega arith)
part_elsewhere others users n k hn hk ne =
    rw (twice n) (test_bit_below (n * 8) (0 + k) (omega arith))
part_elsewhere groups others n k hn hk ne = test_bit_above n k hn
part_elsewhere groups users n k hn hk ne =
    rw (twice n) (test_bit_up (n * 8) k ∙ test_bit_below n k hk)
part_elsewhere users others n k hn hk ne = rw (six k) (test_bit_above n (3 + k) hn)
part_elsewhere users groups n k hn hk ne =
    rw (six k) (test_bit_up n (3 + k) ∙ test_bit_above n k hn)
part_elsewhere others others n k hn hk ne = absurd (ne refl)
part_elsewhere groups groups n k hn hk ne = absurd (ne refl)
part_elsewhere users users n k hn hk ne = absurd (ne refl)

seven : (k : ℕ) → k < 3 → test_bit k 7 ≡ true
unfolding test_bit
seven zero h = refl
seven (suc zero) h = refl
seven (suc (suc zero)) h = refl
seven (suc (suc (suc k))) h = absurd (omega arith)

below_64 : (c : Class) (k : ℕ) → k < 3 → low_bit_of c + k < 64
unfolding low_bit_of
below_64 others k h = omega arith
below_64 groups k h = omega arith
below_64 users k h = omega arith

-- what one step of the loop does to a bit of its class, and of another one
step_in :
    (c : Class) (sel : Bool) (k op cur p : ℕ)
    → k < 3
    → test_bit (low_bit_of c + k) (apply_class sel op cur (part c 7) (part c p)) ≡ (
        if sel
        then acted op (test_bit k p) (test_bit (low_bit_of c + k) cur)
        else test_bit (low_bit_of c + k) cur)
step_in c sel k op cur p h =
    apply_class_in sel (low_bit_of c + k) op cur (part c 7) (part c p) (below_64 c k h)
      (part_here c 7 k ∙ seven k h)
    ∙ rw (part_here c p k) refl

step_out :
    (c d : Class) (sel : Bool) (k op cur p : ℕ)
    → k < 3
    → p < 8
    → (c ≡ d → ⊥)
    → test_bit (low_bit_of c + k) (apply_class sel op cur (part d 7) (part d p))
      ≡ test_bit (low_bit_of c + k) cur
step_out c d sel k op cur p h hp ne =
    apply_class_out sel (low_bit_of c + k) op cur (part d 7) (part d p) (below_64 c k h)
      (part_elsewhere c d 7 k (omega arith) h ne) (part_elsewhere c d p k hp h ne)

-- a bit after an action
unfoldable pub bit_after : Who → Class → ℕ → Bool → Bool → Bool
unfolding selects acted
bit_after who c op new old = if selects who c then acted op new old else old

apply_action-bit_after :
    (who : Who) (c : Class) (k op cur p : ℕ)
    → k < 3
    → p < 8
    → test_bit (low_bit_of c + k) (apply_action who op cur p)
      ≡ bit_after who c op (test_bit k p) (test_bit (low_bit_of c + k) cur)
unfolding apply_action bit_after selects part
apply_action-bit_after who others k op cur p h hp =
    step_out others users who.user k op _ p h hp (λ e. ground arith)
    ∙ step_out others groups who.group k op _ p h hp (λ e. ground arith)
    ∙ step_in others who.other k op cur p h
apply_action-bit_after who groups k op cur p h hp =
    step_out groups users who.user k op _ p h hp (λ e. ground arith)
    ∙ step_in groups who.group k op _ p h
    ∙ ap (bit_after who groups op (test_bit k p))
        (step_out groups others who.other k op cur p h hp (λ e. ground arith))
apply_action-bit_after who users k op cur p h hp =
    step_in users who.user k op _ p h
    ∙ ap (bit_after who users op (test_bit k p)) (
        step_out users groups who.group k op _ p h hp (λ e. ground arith)
        ∙ step_out users others who.other k op cur p h hp (λ e. ground arith))

and_first : (x y : Bool) → (x && y) ≡ true → x ≡ true
and_first true y h = refl
and_first false y h = h

and_not : (x y : Bool) → (x && not y) ≡ true → y ≡ false
and_not x false h = refl
and_not true true h = sym h
and_not false true h = sym h

skipped_bit :
    (sel add set old : Bool)
    → set ≡ false
    → old ≡ (
        if sel
        then (if add then old || false else (if set then false else old && not false))
        else old)
skipped_bit false add set old h = refl
skipped_bit true true set old h = sym (or_false old)
skipped_bit true false false old h = sym (and_true old)
skipped_bit true false true true h = h
skipped_bit true false true false h = refl

-- `+` and `-` without a permission change no bit
bit_after_no_perm :
    (who : Who) (c : Class) (op : ℕ) (old : Bool)
    → (op == b'=') ≡ false
    → old ≡ bit_after who c op false old
unfolding bit_after acted
bit_after_no_perm who c op old h = skipped_bit (selects who c) (op == b'+') (op == b'=') old h

-- An action with permissions below 8 sets or clears each permission bit of a class that it is for: with `+`
-- the bit is set if it was or if it is among the permissions, with `=` it is as in the permissions, and with
-- `-` it is set if it was and is not among them. The bits of the other classes stay as they were. That the
-- source skips `+` and `-` without permissions makes no difference.
pub perform-bit_after :
    (who : Who) (c : Class) (k cur : ℕ) (a : PermAction)
    → k < 3
    → a.perm < 8
    → test_bit (low_bit_of c + k) (perform who cur a)
      ≡ bit_after who c a.op (test_bit k a.perm) (test_bit (low_bit_of c + k) cur)
unfolding perform
perform-bit_after who c k cur a h hp = elim (Bool-cases (a.perm == 0 && not (a.op == b'='))) [
  | inl skipped ↦
      rw (skipped, (==_iff a.perm 0).0 (and_first (a.perm == 0) _ skipped), test_bit_zero k)
        (bit_after_no_perm who c a.op _ (and_not (a.perm == 0) (a.op == b'=') skipped))
  | inr applied ↦ rw applied (apply_action-bit_after who c k a.op cur a.perm h hp)
]
