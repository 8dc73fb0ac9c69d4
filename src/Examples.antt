-- ===== src/Examples.antt =====
-- Tests of the model at concrete inputs, and the theorems at inputs that meet their hypotheses.
mod Strings
mod HashTable
mod Source
mod Arith
mod Eval
mod Symtab
mod Jobs
mod Lists
mod Params
mod Umask
mod Braces
