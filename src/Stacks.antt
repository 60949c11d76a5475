-- ===== src/Stacks.antt =====
-- Stacks of CloudFormation: their creation by util/vpc-tools/create_stack.py, and the configuration of
-- ssh for their instances by util/vpc-tools/vpc-tools.py.
pub mod Create
pub mod Waited
pub mod SshConfig
pub mod Numbered
mod Tests
