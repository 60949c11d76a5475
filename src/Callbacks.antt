-- ===== src/Callbacks.antt =====
-- The callback plugins of Ansible, playbooks/callback_plugins.
pub mod Sqs
pub mod Timing
pub mod Hipchat
