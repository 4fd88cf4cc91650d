-- ===== src/Issuance.antt =====
-- src/server/modules/issuance: licenses and their lifecycle.
pub mod Lifecycle
pub mod Machine
pub mod History
pub mod Issue
pub mod Issued
