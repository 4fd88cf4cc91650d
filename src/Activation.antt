-- ===== src/Activation.antt =====
-- src/server/modules/activation: binding machines to licenses.
pub mod Fingerprint
pub mod Match
pub mod Credential
pub mod Activate
pub mod Outcome
pub mod Service
pub mod Deactivate
pub mod Seats
pub mod Freeing
pub mod History
pub mod Replay
