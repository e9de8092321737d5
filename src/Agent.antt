-- ===== src/Agent.antt =====
-- governor/autonomous_agent.py: the governed loop of an engineering job.
pub mod Decision
pub mod Loop
pub mod Ended
pub mod Rules
pub mod Concluded
pub mod Rounds
pub mod Correct
pub mod Contract
pub mod Recorded
mod Tests
mod AssertionTests
pub mod Patch
pub mod Published
pub mod Assertions
pub mod Validated
pub mod Canonical
pub mod Confirmed
pub mod Artifact
pub mod Executed
mod ArtifactTests
