-- ===== src/Lib.antt =====
-- npmplus-docker-sync keeps the hosts of an NPMplus or nginx-proxy-manager server in step with the
-- labels of Docker containers. The label parser (internal/docker) makes a snapshot of targets of
-- them, by a table of fields with their spellings and defaults (internal/fields);
-- the worker (internal/syncer) compares it with what the server's API client (internal/npm) lists
-- and writes the difference; certificates are chosen by internal/certs.
--
-- The files and what they are about:
--   Base, Base/...        Go's standard library as far as the program uses it: texts as lists of
--                         bytes, maps as association lists, decimal numbers, stable sorting
--   Npm/Kind              internal/npm/resources.go: the kinds of resources
--   Npm/Meta              internal/npm/models.go: the meta object and the ownership in it
--   Npm/Types, Npm/Domains  internal/npm/models.go: certificate references, NormalizeDomains
--   Npm/Locations         internal/npm/models.go: the methods of Location; internal/npm/resources.go:
--                         canonicalLocations, adoptLocationDefaults
--   Npm/Locations/Access  internal/npm/resources.go: normalizeIDs, ProxyHost.accessLists
--   Npm/Dialect           internal/npm/flavor.go, internal/npm/capabilities.go: Dialect, Accepts
--   Npm/Marker, Npm/Marker/Lift  internal/npm/marker.go: encode, parseMarker, splitMarker,
--                         withMarker, liftOwnership; Npm/Marker/Escape is net/url's escaping
--   Certs/...             internal/certs/certs.go: canonical, classify, best, Resolve, ParseSpec,
--                         ParsePartial, Hash
--   Fields/Names          internal/fields/fields.go: normalize
--   Fields/Types          internal/fields/fields.go: Field, ValidateEnum; internal/fields/defaults.go:
--                         Parse, ParseBool
--   Fields/Shared, Fields/Tables  internal/fields/fields.go: the field table and LocationFields
--   Fields/Index, Fields/Distance  internal/fields/fields.go: the lookup by spelling, Suggest and
--                         levenshtein; Fields/Distance/Script has the edit scripts
--   Fields/Defaults       internal/fields/defaults.go: LoadDefaults, Value, Source, unknownEnv
--   Docker/Types          internal/docker/target.go: Target, Snapshot
--   Docker/Address        internal/docker/target.go: IPAddress, ResolveHost, GuessPort
--   Docker/Labels         internal/docker/labels.go: splitLabel, resolveField, trimPrefix, suggest
--   Docker/Managed        internal/docker/labels.go: Managed, Classify
--   Docker/FieldSet       internal/docker/labels.go: fieldSet and its methods, validDomain
--   Docker/Groups         internal/docker/labels.go: groupLabels
--   Docker/Build/...      internal/docker/build.go: buildTarget, one file for each part of it
--   Docker/Scan           internal/docker/labels.go: Parse, ParseAll, Scan
--   Docker/Checked        the errors of the label parser and the chain of its steps
--   Syncer/Debounce       internal/syncer/debounce.go: the cases of Run, and their order
--   Syncer/Cache          internal/syncer/cache.go; Syncer/Cache/Refinement is its specification
--   Syncer/Backoff, Syncer/Lookups  internal/syncer/resolve.go
--   Syncer/Types, Syncer/Calls  the types of internal/syncer/worker.go and the calls of its API
--   Syncer/Ownership, Syncer/Stopped  owns, ownership, the indexes, trackStopped, inGrace
--   Syncer/Write, Syncer/Existing, Syncer/Visit  create, applyEnabled, stampMarker, and the body of
--                         the first loop of reconcileKind, one function a stage
--   Syncer/Collection, Syncer/Orphans, Syncer/Listed  the two loops of reconcileKind, and the whole
--   Syncer/Deletion       guardDeletions, deleteOrphans
--   Syncer/Run            reconcile, flush, Run
--   Tests/...             the theorems at concrete inputs, with a small world for the worker
--
-- The worker's state is the record Worker of Syncer/Types. The functions take it and return the
-- next one. The interfaces API, TargetSource and npm.Resource, BuildResource and the clock are the
-- record Env that the functions take: each call takes the state of the outside world and returns
-- its answer and the next state. Besides, the worker lists the writes it has made, the newest
-- first, which is what the theorems on safety speak about. Errors are values of the type Problem.
-- Parameters are also the conversion of names to ASCII and the parsing of dates (Certs/Types), and
-- the test of an address by net.ParseIP (Docker/Address).
--
-- The labels of a container and the values of a field set are lists in the order in which a range over
-- the map meets them; where the program sorts the keys first, so do the definitions. The table of
-- fields is written out in full, and the lookups are computed from it.
--
-- Every recursion is structural, over a list of targets, keys, kinds, lines or bytes. Only
-- the digits of a number are computed on fuel, one more than the number, which is enough for the
-- decimal to be read back (Base/Number/Laws). Times are numbers in the unit of the clock, differences below zero are zero. Ids, ports and
-- counters are natural numbers; the index in a marker is an integer of 64 bits. The share of
-- DELETE_GUARD is the fraction as it is written in the configuration and is compared exactly; the
-- program divides with float64.
--
-- Texts are lists of bytes, and strings.ToLower, strings.ToUpper, strings.EqualFold and
-- strings.TrimSpace change, compare and cut the letters and the blanks of ASCII only, where Go's work on
-- Unicode.
--
-- Not modelled: logging; the locks of the worker, whose runs are sequential, since one goroutine
-- owns all writes; the metrics; the state of the event stream in the readiness probe; the four
-- resource types with their payloads, and their fingerprints but for the locations; the HTTP client; the configuration; the
-- documentation texts of the fields, and the messages of the errors, which are constructors with
-- what they show. The debouncer's cap is at least its quiet period, as internal/config/config.go
-- demands it.
pub mod Base
pub mod Npm
pub mod Certs
pub mod Docker
pub mod Fields
pub mod Syncer
pub mod Tests
