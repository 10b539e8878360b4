-- ===== src/Resources.antt =====
-- Resources: their identities (src/aurora_bot/contracts/resource.py) and the catalog that resolves
-- them (src/aurora_bot/resources/catalog.py).
pub mod Keys
pub mod Names
pub mod Catalog
pub mod Building
pub mod Resolution
pub mod Tests
