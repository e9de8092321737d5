-- ===== src/Transaction.antt =====
-- homelab/live/usr/local/lib/lifeos_transaction.py
mod World
mod Files
mod Begin
mod Phases
mod Rules
mod Guarded
mod Locks
mod Keeps
mod Checking
mod Opening
mod Creating
mod Exact
pub mod Serving
pub mod Commit
mod Applied
mod Undone
pub mod Begun
pub mod Restore
mod Tests
