-- ===== src/Queue.antt =====
-- relay/queue.go, the job broker: `Defs` and `Jobs` hold its operations, the rest their proofs.
pub mod Defs
pub mod Jobs
pub mod Steps
pub mod Ids
pub mod Invariant
pub mod SameFor
pub mod Isolation
pub mod Backlog
pub mod Refinement
pub mod NotQueued
pub mod Cancel
pub mod Results
pub mod Lifetime
pub mod Ownership
pub mod Wakeup
mod Tests
