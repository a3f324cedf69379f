-- ===== src/Handlers.antt =====
-- src/mco/orchestrator/handlers.py: what becomes of a job around its leases. A `Hub` is the store with every
-- audit record and broadcast so far. A handler runs to its end before the next one touches a row.
pub mod Hub
pub mod Failure
pub mod Turns
pub mod Dependents
pub mod Parents
pub mod Creation
pub mod Retries
mod Examples
