-- ===== src/Cron.antt =====
-- Cron expressions (src/mco/scheduler.py), as lists of code points.
pub mod Field
pub mod Search
mod Examples
