-- ===== src/HashTable.antt =====
-- src/symtab/string_hash.c: the chained hash table of strings, generic in the member of the union
-- that the table uses (`val` in the utilities' table, `refs` in the string buffer).
pub mod Fnv
pub mod Defs
pub mod Bucket
pub mod Invariant
pub mod Laws
