-- ===== src/Supervisor.antt =====
-- src/mco/agentd/supervisor.py: the restart policy of one worker, as a machine over its runtime,
-- its entry in the persistent state, and the calls it makes of the platform adapter.
-- Clocks and process results are read from a `Readings`. Times are in milliseconds.
pub mod Worker
pub mod Step
pub mod Tick
pub mod Histories
pub mod Backoff
pub mod Overflow
pub mod Invariant
pub mod Latch
pub mod Recovery
mod Examples
pub use Worker.{WorkerRuntime, Slot}
