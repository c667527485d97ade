-- ===== src/Broker.antt =====
-- The inference broker (projects/broker): request validation, the scheduler and its protocol.
pub mod Validation
pub mod Job
pub mod Invariant
pub mod Scheduler
pub mod Settlement
pub mod Turns
pub mod Submission
pub mod Actions
pub mod Protocol
pub mod System
mod Tests
