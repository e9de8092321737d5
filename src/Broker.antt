-- ===== src/Broker.antt =====
-- governor/ai_broker.py: the failover of the AI broker between the providers that the router finds.
pub mod Failures
pub mod Invoke
pub mod Generate
pub mod Local
pub mod Private
pub mod First
mod Tests
