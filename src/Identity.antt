-- ===== src/Identity.antt =====
-- Identities (src/aurora_bot/contracts/identity.py): the names of owners and entries, the
-- identifiers that they form, and the tags that stand for lists of entries.
pub mod Names
pub mod Identifiers
pub mod Tags
pub mod Segments
pub mod Parsing
pub mod Expansion
pub mod Ending
pub mod Tests
