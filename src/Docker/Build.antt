-- ===== src/Docker/Build.antt =====
-- The target of one resource from its labels: internal/docker/build.go.
pub mod Values
pub mod Access
pub mod Upstream
pub mod Blocks
pub mod Locations
pub mod Hosts
pub mod Proxy
pub mod Stream
pub mod Target
pub mod Laws
