-- ===== src/Arith/Assign.antt =====
-- Assignments of src/shunt.c: what is assigned is read back, and read-only variables keep their values.
use layla_shell.Arith.Machine.{var_ptr}
use layla_shell.Arith.Word.{modulus}
use layla_shell.Arith.Text.{strtol, print_long, strtol-print_long}
use layla_shell.Arith.Eval.{
  State, Operand, text_value, val_value, item_value, long_value, adopt, assign_buf, assign_var,
  eval_assign_val,
}
use layla_shell.Symtab.Entry.{
  Entry, Hooks, update, clear, tell_special, temp_var, readonly, special_var,
}
use layla_shell.Symtab.Keeps.{update-frame, update_at}
use layla_shell.Prelude.Bytes.{Bytes}
use layla_shell.Prelude.{
  ℕ, ◌+◌, ◌<◌, ◌≤◌, ◌||◌, ltb, length, arith, ◌≡◌, ◌≢◌, refl, Bool, true, false, Option, some,
  ne→==, if◌then◌else◌, ap, ◌∙◌, Bool-cases, inl, inr,
}

module _ (hooks : Hooks) where
  text_value-print :
      (n : ℕ) (s : State)
      → n < modulus
      → text_value hooks (print_long n) (strtol (print_long n)) s ≡ (n, s)
  unfolding text_value
  text_value-print n s h = rw (strtol-print_long n h) refl

  pub long_value-item :
      (x : Operand) (s : State) → s.error ≡ false → long_value hooks x s ≡ item_value hooks x s
  unfolding long_value
  long_value-item x s ok = ap (λ (e : Bool). if e then (0, s) else item_value hooks x s) ok

  item_value-stored :
      (a n : ℕ) (s : State)
      → n < modulus
      → (s.vars a).val ≡ some (print_long n)
      → item_value hooks (var_ptr a) s ≡ (n, s)
  unfolding item_value val_value
  item_value-stored a n s h stored =
      ap (λ (v : Option Bytes). val_value hooks v s) stored ∙ text_value-print n s h

  adopt-special : (e : Entry) → (adopt e).flags special_var ≡ e.flags special_var
  unfolding adopt clear
  adopt-special e = elim (Bool-cases (e.flags temp_var)) [ inl t ↦ rw t refl | inr t ↦ rw t refl ]

  or_false : (b : Bool) → (b || false) ≡ b
  or_false true = refl
  or_false false = refl

  -- what an assignment does to a plain variable
  pub assigned : ℕ → ℕ → State → State
  assigned a n s =
      let vars = update a (adopt (s.vars a)) s.vars in
      record s {
        vars = update a (record (vars a) { val = some (print_long n) }) vars;
        overrun = s.overrun || ltb assign_buf (length (print_long n) + 1);
      }

  pub assign_var-assigned :
      (a n : ℕ) (s : State)
      → (s.vars a).flags readonly ≡ false
      → (s.vars a).flags special_var ≡ false
      → assign_var hooks a n s ≡ (n, assigned a n s)
  unfolding assign_var tell_special assigned
  assign_var-assigned a n s writable plain =
      let not_special =
        ap (λ (e : Entry). e.flags special_var) (update_at a (adopt (s.vars a)) s.vars)
        ∙ adopt-special (s.vars a)
        ∙ plain in
      rw (writable, not_special) refl

  pub assigned-frame : (a b n : ℕ) (s : State) → a ≢ b → (assigned a n s).vars b ≡ s.vars b
  unfolding assigned
  assigned-frame a b n s ne =
      update-frame a b _ _ (ne→== a b ne) ∙ update-frame a b _ _ (ne→== a b ne)

  assigned-val : (a n : ℕ) (s : State) → ((assigned a n s).vars a).val ≡ some (print_long n)
  unfolding assigned
  assigned-val a n s = ap (λ (e : Entry). e.val) (update_at a _ _)

  -- Take a variable that is neither read-only nor special, and a long `n` whose text and NUL fit the 16 bytes
  -- of its buffer, with no error raised. Then eval_assign_val() returns `n` and overruns no buffer; the variable is read back as `n`; and the
  -- entries at other addresses are as before.
  pub eval_assign_val-long_value :
      (a n : ℕ) (s : State)
      → s.error ≡ false
      → (s.vars a).flags readonly ≡ false
      → (s.vars a).flags special_var ≡ false
      → n < modulus
      → length (print_long n) + 1 ≤ assign_buf
      → let r = eval_assign_val hooks (var_ptr a) n s in
        (r.0 ≡ n)
        × (r.1.overrun ≡ s.overrun)
        × (long_value hooks (var_ptr a) r.1 ≡ (n, r.1))
        × ((b : ℕ) → a ≢ b → r.1.vars b ≡ s.vars b)
  unfolding eval_assign_val assigned
  eval_assign_val-long_value a n s ok writable plain h fits =
      rw (assign_var-assigned a n s writable plain) (
        refl,
        (let within : ltb assign_buf (length (print_long n) + 1) ≡ false = ground arith in
            rw within (or_false s.overrun)),
        long_value-item (var_ptr a) (assigned a n s) ok
            ∙ item_value-stored a n (assigned a n s) h (assigned-val a n s),
        λ b. assigned-frame a b n s,
      )
