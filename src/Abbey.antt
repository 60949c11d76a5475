-- ===== src/Abbey.antt =====
-- The builder of machine images, util/vpc-tools/abbey.py.
pub mod Poll
pub mod Image
pub mod Launch
pub mod Run
mod Tests
