-- ===== src/Kernel/Host.antt =====
-- The host of src/aurora_kernel/host.py and its lifecycle (src/aurora_kernel/lifecycle.py,
-- src/aurora_kernel/failures.py, src/aurora_kernel/tasks.py).
pub mod Failures
pub mod Prepare
pub mod Assembly
pub mod Released
pub mod Supervision
pub mod Tests
