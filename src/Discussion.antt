-- ===== src/Discussion.antt =====
-- internal/discussion
pub mod Model
pub mod Exec
pub mod Capability
pub mod Validate
pub mod Messages
pub mod Outbox
pub mod Access
pub mod Create
pub mod Deliveries
pub mod Expiry
pub mod Reconcile
pub mod Post
pub mod Read
pub mod Subscribe
