-- ===== src/Lease.antt =====
-- src/mco/orchestrator/leases.py over the embedded store: one owner per attempt, proven at every
-- worker write. A clock reading, the life of a lease and fresh identifiers are arguments.
pub mod Claims
pub mod Operations
pub mod Update
pub mod Fencing
pub mod Attempts
pub mod Renewal
pub mod Replay
pub mod Pause
pub mod Epochs
pub mod Receipts
pub mod Halts
mod Examples
