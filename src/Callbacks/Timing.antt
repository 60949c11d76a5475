-- ===== src/Callbacks/Timing.antt =====
-- playbooks/callback_plugins/task_timing.py, which times the tasks of a play and hands the times to
-- three loggers.
pub mod Stamp
pub mod Loggers
pub mod Plugin
pub mod Stopped
pub mod Elapsed
pub mod Log
pub mod Longest
mod Tests
