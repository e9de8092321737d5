-- ===== src/Updates.antt =====
-- engineer/managed_updates.py: the review of an update of a managed component.
pub mod Contract
pub mod Packet
pub mod Newest
pub mod Built
pub mod Deploy
pub mod Rollback
mod Tests
