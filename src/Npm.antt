-- ===== src/Npm.antt =====
-- Package npm (internal/npm): the kinds of resources, their ownership and its marker, and what a
-- server accepts.
pub mod Kind
pub mod Meta
pub mod Marker
pub mod Types
pub mod Domains
pub mod Dialect
pub mod Locations
