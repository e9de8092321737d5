-- ===== src/Planner.antt =====
-- LifeOS-Energy/app/services/planner.py: the plan of the battery over the half hours of a day.
pub mod Slots
pub mod Dynamic
pub mod Optimise
pub mod Trips
pub mod Cells
pub mod Rounds
pub mod Tables
pub mod Optimal
pub mod Correct
mod Tests
