-- ===== src/Kernel/Resolve.antt =====
-- The resolution of src/aurora_kernel/resolve.py: which modules are active, who provides a
-- capability, in which order the modules are constructed, and the plan of the phases.
pub mod Checks
pub mod Providers
pub mod Topological
pub mod Plan
pub mod Release
pub mod Search
pub mod Loop
pub mod Order
pub mod Tests
