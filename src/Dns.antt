-- ===== src/Dns.antt =====
-- The DNS records of a stack, util/vpc-tools/vpc_dns.py.
pub mod Records
pub mod Due
pub mod Stack
pub mod Submitted
pub mod Planned
mod Tests
