-- ===== src/Kernel/Context.antt =====
-- The shared context of src/aurora_kernel/context.py.
pub mod State
pub mod Commit
pub mod Tests
