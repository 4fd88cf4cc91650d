-- ===== src/Lease.antt =====
-- Floating concurrency seats: src/server/modules/lease.
pub mod Config
pub mod Handle
pub mod HolderKey
pub mod Acquire
pub mod Renew
pub mod Reclaim
pub mod Repo
pub mod Seats
pub mod Endings
pub mod Fence
pub mod Sweep
pub mod Frame
pub mod Upkeep
pub mod Reach
pub mod Admission
pub mod Service
pub mod Bounds
pub mod Replay
