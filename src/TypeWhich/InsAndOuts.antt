-- ===== src/TypeWhich/InsAndOuts.antt =====
-- The inference of ins_and_outs, after Rastogi et al.: its types and programs.
pub mod Syntax
pub mod Kinds
pub mod Bounds
pub mod Portable
pub mod Lowered
pub mod Solve
pub mod Solved
pub mod Collect
