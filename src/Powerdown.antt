-- ===== src/Powerdown.antt =====
-- homelab/live/opt/stacks/lifeos-energy/powerdown-assurance/lifeos-powerdown-assurance-active.py
mod CrossCheck
pub mod Trust
mod Reserve
mod Runs
pub mod Ownership
mod Bounds
pub mod Prepared
pub mod Schedule
pub mod Readiness
mod Tests
