-- ===== src/Tools.antt =====
-- The registry of tools (src/aurora_bot/tools/registry.py): the catalog and the route of a call.
pub mod Registry
pub mod Routing
pub mod Outcomes
pub mod Tests
