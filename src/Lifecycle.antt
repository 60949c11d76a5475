-- ===== src/Lifecycle.antt =====
-- `LifecycleHandler` of util/vpc-tools/asg_lifcycle_watcher.py: what it does with the messages that
-- auto-scaling groups send when their instances terminate.
pub mod Handler
pub mod Justified
pub mod Calls
pub mod Safety
pub mod Progress
mod Tests
