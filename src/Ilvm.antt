-- ===== src/Ilvm.antt =====
-- The ILVM interpreter, tasks/ilvm-interpreter/solution/ilvm/src.
pub mod Syntax
pub mod Word
pub mod Op
pub mod Alloc
pub mod Run
pub mod Parser
pub mod State
pub mod Print
pub mod Machine
pub mod Args
pub mod Eval
pub mod Main
mod Examples
