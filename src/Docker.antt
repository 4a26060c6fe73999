-- ===== src/Docker.antt =====
-- What is taken from Docker (internal/docker).
pub mod Types
pub mod Address
pub mod Labels
pub mod Checked
pub mod FieldSet
pub mod Managed
pub mod Groups
pub mod Build
pub mod Scan
