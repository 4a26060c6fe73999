-- ===== src/Certs.antt =====
-- Package certs (internal/certs/certs.go): which certificate a host gets.
pub mod Types
pub mod Names
pub mod Selection
pub mod Parsing
