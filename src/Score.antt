-- ===== src/Score.antt =====
-- Scores (src/mco/orchestrator/scores.py and score_policy.py).
pub mod Policy
pub mod Plan
pub mod Run
pub mod Steps
pub mod Checkpoints
pub mod Invariant
pub mod Frames
pub mod Dispatch
pub mod Keeps
pub mod Histories
pub mod Budgets
pub mod Open
pub mod Begins
pub mod Reviews
pub mod Sources
pub mod Verdicts
pub mod Gates
pub mod Order
pub mod Rounds
pub mod Circles
mod Examples
