-- ===== src/Ilvm/Examples.antt =====
-- The interpreter's operations on concrete inputs.
pub mod Memory
pub mod Program
pub mod Start
pub mod Source
