-- ===== src/Arith.antt =====
-- src/shunt.c: arithmetic expansion by the shunting-yard algorithm.
pub mod Op
pub mod Machine
pub mod Drain
pub mod Grammar
pub mod Run
pub mod Steps
pub mod Sim
pub mod Correct
pub mod Choose
pub mod Evaluate
pub mod Word
pub mod Text
pub mod Width
pub mod Eval
pub mod Assign
pub mod Plain
pub mod Readonly
pub mod Signed
pub mod Bits
pub mod Division
pub mod Spelling
pub mod Munch
pub mod Digit
pub mod Number
pub mod Numeral
pub mod Literal
