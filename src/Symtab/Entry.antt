-- ===== src/Symtab/Entry.antt =====
-- Entries of the symbol table, and symtab_entry_setval() of src/symtab/symtab_hash.c. An entry is
-- known by its address. What a value does to the rest of the shell is a parameter: set_special_var(),
-- and arithm_expand(), which reads and assigns variables.
use layla_shell.Strings.Case.{upper_loop, lower_loop}
use layla_shell.Prelude.Bytes.{Bytes}
use layla_shell.Prelude.{ℕ, Bool, not, ◌&&◌, Option, none, some, ◌==◌, if◌then◌else◌}

pub data Flag : Type 0 where
  export readonly cmd_export local allcaps allsmall functrace intval special_var temp_var : Flag

abbrev pub bit : Flag → ℕ
bit export = 0
bit readonly = 1
bit cmd_export = 2
bit local = 3
bit allcaps = 4
bit allsmall = 5
bit functrace = 6
bit intval = 7
bit special_var = 8
bit temp_var = 9

abbrev pub Flags : Type 0
Flags = Flag → Bool

unfoldable pub clear : Flag → Flags → Flags
clear f flags g = not (bit f == bit g) && flags g

-- `func_body` and `val_type`, which are for functions, are left out
pub record Entry : Type 0 where
  pub name : Bytes
  pub val : Option Bytes
  pub flags : Flags

-- the entries at their addresses
abbrev pub Vars : Type 0
Vars = ℕ → Entry

unfoldable pub update : ℕ → Entry → Vars → Vars
update a e vars b = if a == b then e else vars b

-- code outside of the symbol table
pub record Hooks : Type 0 where
  pub set_special_var : Bytes → Bytes → Vars → Vars
  pub arithm_expand : Bytes → Vars → Option Bytes × Vars

module _ (hooks : Hooks) where
  unfoldable pub letter_case : Flags → Bytes → Bytes
  letter_case flags v =
      if flags allcaps then upper_loop v else if flags allsmall then lower_loop v else v

  unfoldable pub tell_special : ℕ → Bytes → Vars → Vars
  tell_special a v vars =
      if (vars a).flags special_var then hooks.set_special_var (vars a).name v vars else vars

  -- the value of an integer variable is evaluated; if that fails the old value stays
  unfoldable pub store_expanded : ℕ → Option Bytes × Vars → Vars
  store_expanded a (none, vars) = vars
  store_expanded a (some v, vars) = update a (record (vars a) { val = some v }) vars

  unfoldable pub store : ℕ → Bytes → Vars → Vars
  store a v vars =
      if (vars a).flags intval
      then store_expanded a (hooks.arithm_expand v vars)
      else store_expanded a (some v, vars)

  unfoldable pub symtab_entry_setval : ℕ → Option Bytes → Vars → Vars
  symtab_entry_setval a none vars = update a (record (vars a) { val = none }) vars
  symtab_entry_setval a (some v) vars =
      let w = letter_case (vars a).flags v in store a w (tell_special a w vars)
