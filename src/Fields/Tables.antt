-- ===== src/Fields/Tables.antt =====
-- `Table` of internal/fields/fields.go, a list of fields for each resource kind.
mod Proxy
mod Redirect
mod Stream
mod Dead
mod Locations
pub use Locations.{location_fields}
use npmplus_docker_sync.Base.{List, []}
use npmplus_docker_sync.Fields.Types.{Field}
use npmplus_docker_sync.Npm.Kind.{Kind, proxy, redirect, stream, dead}
use Proxy.{proxy_fields}
use Redirect.{redirect_fields}
use Stream.{stream_fields}
use Dead.{dead_fields}

-- `Table[kind]`
abbrev pub table : Kind → List Field
table proxy = proxy_fields
table redirect = redirect_fields
table stream = stream_fields
table dead = dead_fields
table _ = []
