-- ===== src/TypeWhich.antt =====
-- TypeWhich, the type migration tool of tasks/gradual-type-migration/solution/typewhich.
pub mod Syntax
pub mod Outcome
pub mod TypeCheck
pub mod Precision
mod Examples
pub mod Types
pub mod Coercions
pub mod Builders
pub mod Eval
pub mod Matching
pub mod Fresh
pub mod Insertion
pub mod InsAndOuts
pub mod Z3
pub mod Migration
