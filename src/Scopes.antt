-- ===== src/Scopes.antt =====
-- Scopes: their declarations, the catalog that classifies a scope and the merge of the modules'
-- declarations with the configured ones (src/aurora_bot/contracts/scope.py), and the module that
-- freezes the catalog (src/aurora_bot/scopes/module.py).
pub mod Patterns
pub mod Matching
pub mod Catalog
pub mod Sorting
pub mod Merging
pub mod Collecting
pub mod Merged
pub mod Coverage
pub mod Accepted
pub mod Tests
