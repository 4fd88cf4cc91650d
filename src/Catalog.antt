-- ===== src/Catalog.antt =====
-- src/server/modules/catalog: what a license takes from its plan.
pub mod Effective
