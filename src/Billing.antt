-- ===== src/Billing.antt =====
-- Billing (src/server/modules/billing): events of the payment providers move subscriptions, and
-- through them the licenses.
pub mod Events
pub mod Subscription
pub mod Customers
pub mod Lifecycle
pub mod Overlay
pub mod GraceWorker
pub mod Webhook
pub mod Writes
pub mod Ledger
pub mod Known
pub mod Once
pub mod Shape
pub mod Upheld
pub mod Actions
pub mod Grace
pub mod Terminal
pub mod Stuck
pub mod Windows
pub mod Recorded
pub mod Summaries
pub mod Guard
