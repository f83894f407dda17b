-- ===== src/Comp.antt =====
-- The program that turns the text of the translator into bytes (comp/comp.h, comp/comp.cpp).
pub mod Symbol
pub mod Opcode
pub mod Lexer
pub mod Assembler
pub mod Ahead
pub mod Writes
pub mod Input
pub mod Program
pub mod Segments
