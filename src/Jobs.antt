-- ===== src/Jobs.antt =====
-- governor/job_records.py: the publication of job records, and why a repair loop stopped.
pub mod Publication
pub mod Honest
pub mod Staging
pub mod Terminal
mod Tests
