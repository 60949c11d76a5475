-- ===== src/Supervisor.antt =====
-- playbooks/roles/supervisor/files/pre_supervisor_checks.py, which enables the services of an
-- instance. What boto, HipChat and the operating system answer is a parameter; the calls that
-- change something are recorded in order, and a text that is only written or sent is left out
-- where it holds a traceback.
pub mod Instance
pub mod Checks
pub mod Enable
pub mod Migrated
pub mod Backoff
mod Tests
