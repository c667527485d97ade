-- ===== src/Maintenance.antt =====
-- projects/maintenance: the inbox of maintenance findings.
pub mod Model
pub mod Inbox
pub mod Publish
pub mod Publishing
pub mod Invariant
pub mod Ids
pub mod Keeps
pub mod Kept
pub mod Changes
pub mod Pruning
pub mod Reachable
pub mod Renewal
pub mod Staleness
pub mod Counting
pub mod Snapshot
pub mod Listing
pub mod Loading
pub mod Loaded
pub mod Service
mod Tests
