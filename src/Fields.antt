-- ===== src/Fields.antt =====
-- The settings of a resource and their defaults: internal/fields.
pub mod Names
pub mod Types
pub mod Shared
pub mod Tables
pub mod Index
pub mod Distance
pub mod Defaults
