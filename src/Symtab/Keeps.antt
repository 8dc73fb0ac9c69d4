-- ===== src/Symtab/Keeps.antt =====
-- Read-only entries of the symbol table of src/symtab/ through symtab_entry_setval().
use mathlib.Core.Bool.{true≢false}
use layla_shell.Symtab.Entry.{
  Entry, Vars, Hooks, update, symtab_entry_setval, letter_case, tell_special, store, store_expanded,
  readonly, special_var, intval,
}
use layla_shell.Prelude.Bytes.{Bytes}
use layla_shell.Prelude.{
  ℕ, ◌≡◌, ◌≢◌, refl, true, false, Option, none, some, ◌==◌, ◌∙◌, ne→==, ==_refl, ap, sym,
}

-- the read-only entries of `vars` are the same in `vars'`
abbrev pub Keeps : Vars → Vars → Type 0
Keeps vars vars' = (x : ℕ) → (vars x).flags readonly ≡ true → vars' x ≡ vars x

pub Keeps-trans : (u v w : Vars) → Keeps u v → Keeps v w → Keeps u w
Keeps-trans u v w f g x h = g x (ap (λ (e : Entry). e.flags readonly) (f x h) ∙ h) ∙ f x h

pub update-frame :
    (a x : ℕ) (e : Entry) (vars : Vars) → (a == x) ≡ false → update a e vars x ≡ vars x
unfolding update
update-frame a x e vars ne = rw ne refl

pub update_at : (a : ℕ) (e : Entry) (vars : Vars) → update a e vars a ≡ e
unfolding update
update_at a e vars = rw (==_refl a) refl

pub writable-apart :
    (a x : ℕ) (vars : Vars)
    → (vars a).flags readonly ≡ false
    → (vars x).flags readonly ≡ true
    → a ≢ x
writable-apart a x vars w h e = true≢false (sym h ∙ ap (λ y. (vars y).flags readonly) (sym e) ∙ w)

pub writable-differs :
    (a x : ℕ) (vars : Vars)
    → (vars a).flags readonly ≡ false
    → (vars x).flags readonly ≡ true
    → (a == x) ≡ false
writable-differs a x vars w h = ne→== a x (writable-apart a x vars w h)

pub update-Keeps :
    (a : ℕ) (e : Entry) (vars : Vars)
    → (vars a).flags readonly ≡ false
    → Keeps vars (update a e vars)
update-Keeps a e vars w x h = update-frame a x e vars (writable-differs a x vars w h)

module _ (hooks : Hooks) where
  store_expanded-frame :
      (a x : ℕ) (r : Option Bytes × Vars) → (a == x) ≡ false → store_expanded hooks a r x ≡ r.1 x
  unfolding store_expanded
  store_expanded-frame a x (none, vars) ne = refl
  store_expanded-frame a x (some v, vars) ne = update-frame a x _ vars ne

  -- an assignment to a variable that is neither special nor an integer changes its entry only
  pub setval-frame :
      (a x : ℕ) (v : Bytes) (vars : Vars)
      → (vars a).flags special_var ≡ false
      → (vars a).flags intval ≡ false
      → (a == x) ≡ false
      → symtab_entry_setval hooks a (some v) vars x ≡ vars x
  unfolding symtab_entry_setval tell_special store
  setval-frame a x v vars plain text ne =
      rw (plain, text)
        (store_expanded-frame a x (some (letter_case hooks (vars a).flags v), vars) ne)
