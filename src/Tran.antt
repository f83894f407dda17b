-- ===== src/Tran.antt =====
-- The translator of tran/tran.h and tran/tran.cpp: lexer, parser and the code it emits.
pub mod Symbol
pub mod Lexer
mod Input
mod Scan
mod Lexing
mod Stream
mod Words
mod Window
mod Ahead
mod Speculate
mod Operands
mod Expression
mod Levels
mod Primaries
mod Names
mod Translate
mod FromText
mod OnCode
mod Columns
pub mod Parser
pub mod Grammar
pub mod Tables
pub mod Clauses
pub mod Header
pub mod Statements
pub mod Definitions
pub mod Alter
pub mod Privileges
pub mod Dump
mod Tests
