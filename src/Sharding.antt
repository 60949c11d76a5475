-- ===== src/Sharding.antt =====
-- The distribution of Docker builds over Travis shards: util/balancecontainers.py,
-- util/docker_images.py and util/check_dockerfile_coverage.py.
pub mod Pack
pub mod Images
mod Tests
