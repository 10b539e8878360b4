-- ===== src/Kernel.antt =====
-- The kernel: which modules of a program start, and which handlers a call reaches.
pub mod Declaration
pub mod Phases
pub mod Optional
pub mod Greatest
pub mod Resolve
pub mod Context
pub mod Calls
pub mod Host
pub mod Routes
pub mod Tests
