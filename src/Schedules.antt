-- ===== src/Schedules.antt =====
-- Schedules, loops and the scheduler's pass (src/mco/scheduler.py and src/mco/launcher.py).
pub mod Due
pub mod Config
pub mod Valid
pub mod Launch
pub mod Tick
pub mod Storage
pub mod Counts
pub mod Fires
pub mod Bounds
mod Examples
