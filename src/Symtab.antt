-- ===== src/Symtab.antt =====
-- The symbol table of src/symtab/: its entries (symtab.h), and the assignment of values to them.
pub mod Entry
pub mod Keeps
pub mod Stack
pub mod Scope
pub mod Local
pub mod Remove
pub mod Unlink
