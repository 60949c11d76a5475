-- ===== src/Callbacks/Hipchat.antt =====
-- playbooks/callback_plugins/hipchat_plugin.py, which reports on a playbook in a room of HipChat.
pub mod Plugin
pub mod Stats
pub mod Rows
pub mod Reported
pub mod Ended
mod Tests
