-- ===== src/Ilvm/Parser.antt =====
-- parser.rs.
pub mod Token
pub mod Nom
pub mod Values
pub mod Instr
pub mod Grammar
pub mod Complete
mod Matched
pub mod Sound
pub mod Blocks
pub mod Text
pub mod Lexer
pub mod Lexemes
pub mod Spelt
pub mod Lexed
pub mod Words
pub mod Whole
