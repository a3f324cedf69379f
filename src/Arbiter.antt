-- ===== src/Arbiter.antt =====
-- src/mco/orchestrator/resource_arbiter.py: named resources, each with one holder and a queue by
-- priority. Instants are numbers on one clock; an ISO text and its instant are not told apart.
pub mod Resource
pub mod Operations
pub mod Queue
pub mod Soundness
pub mod Handoff
pub mod Expiry
mod Examples
