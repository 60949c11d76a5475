-- ===== src/Mirrors.antt =====
-- playbooks/roles/gh_mirror/files/repos_from_orgs.py, which keeps mirrors of the repositories of
-- organizations.
pub mod Run
pub mod Paged
pub mod Mirrored
mod Tests
