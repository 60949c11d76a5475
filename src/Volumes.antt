-- ===== src/Volumes.antt =====
-- util/vpc-tools/tag-old-ebs.py, which mounts the volumes that no instance uses, one after the other,
-- and tags them with what it finds on them.
pub mod Disk
pub mod Run
pub mod Mounted
pub mod Released
pub mod Ending
mod Tests
