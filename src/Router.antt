-- ===== src/Router.antt =====
-- engineer/provider_router.py: the choice of a provider for a task.
pub mod Policy
pub mod Eligible
pub mod Sorting
pub mod Runnable
pub mod Considered
pub mod Cheapest
mod Tests
