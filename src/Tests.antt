-- ===== src/Tests.antt =====
-- The theorems at concrete inputs.
mod Marker
mod Certificates
mod World
mod Worker
mod Tables
mod Events
mod Containers
mod Settings
mod Labels
mod Locations
