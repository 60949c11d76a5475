-- ===== src/Dependencies.antt =====
-- The dependency analysis of util/parsefiles.py: which Docker plays a change set affects.
pub mod Yaml
pub mod Graph
pub mod Build
pub mod Plays
pub mod Changes
pub mod Main
mod Tests
