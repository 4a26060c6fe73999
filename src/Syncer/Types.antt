-- ===== src/Syncer/Types.antt =====
-- What the worker of internal/syncer/worker.go works with: the interfaces `API`, `TargetSource` and
-- `npm.Resource`, its options, and its state.
use npmplus_docker_sync.Base.{ℕ, Bool, Option, List, ◌⊎◌}
use npmplus_docker_sync.Base.Dict.{Dict}
use npmplus_docker_sync.Base.Text.{Text}
use npmplus_docker_sync.Certs.Types as CertTypes
use npmplus_docker_sync.Certs.Types.{Certificate, Partial, Class}
use npmplus_docker_sync.Docker.Types.{OnStop, Target, Snapshot}
use npmplus_docker_sync.Npm.Dialect.{Dialect}
use npmplus_docker_sync.Npm.Kind.{Kind}
use npmplus_docker_sync.Npm.Meta.{Meta}
use npmplus_docker_sync.Npm.Types.{AccessList, CertificateId}
use npmplus_docker_sync.Syncer.Backoff.{Failure}
use npmplus_docker_sync.Syncer.Cache.{Cache}

-- The errors that a run collects; their texts are `describe` of the environment.
pub data Problem (Error : Type 0) : Type 0 where
  unknown_access_list : Text → Problem Error
  no_certificate : Problem Error
  snapshot_failed : Error → Problem Error
  unsupported_kind : Kind → Problem Error
  list_failed create_failed update_failed mark_failed toggle_failed delete_failed :
      Kind → Text → Error → Problem Error

-- The interfaces. A call takes the state of the outside world, Docker and the server, and returns
-- the next one; `inl` is an error.
pub record Env : Type 1 where
  pub Resource : Type 0
  pub Server : Type 0
  pub Error : Type 0
  pub certs : CertTypes.Env
  pub describe : Problem Error → Text
  pub is_not_found : Error → Bool
  pub now : Server → ℕ × Server
  pub resource_kind : Resource → Kind
  pub resource_id : Resource → ℕ
  pub resource_key : Resource → Text
  pub resource_meta : Resource → Meta
  pub owner_marked : Resource → Bool
  pub resource_certificate : Resource → CertificateId
  pub fingerprint : Resource → Text
  pub is_enabled : Resource → Bool
  pub domains : Resource → Option (List Text)
  pub adopt_server_state : Resource → Resource → Resource
  pub build_resource : Target → CertificateId → Text → Text → Option Resource
  pub conform : Resource → Dialect → Resource
  pub snapshot : Server → (Error ⊎ Snapshot) × Server
  pub list : Kind → Server → (Error ⊎ List Resource) × Server
  pub create : Resource → Server → (Error ⊎ Resource) × Server
  pub update : ℕ → Resource → Server → (Error ⊎ Resource) × Server
  pub delete : Kind → ℕ → Server → Option Error × Server
  pub set_enabled : Kind → ℕ → Bool → Server → Option Error × Server
  pub list_certificates : Server → (Error ⊎ List Certificate) × Server
  pub list_access_lists : Server → (Error ⊎ List AccessList) × Server
  pub dialect : Server → Dialect
  pub recheck : Server → Option Error × Server

-- `Options`. The share `DeleteGuard` is the fraction of the two numbers, as it is written in the
-- configuration.
pub record Options : Type 0 where
  pub delete_orphans : Bool
  pub adopt_existing : Bool
  pub dry_run : Bool
  pub kinds : List Kind
  pub certificate_partial : Partial
  pub certificate_auto_create : Bool
  pub migrate_from_redth : Bool
  pub on_stop : OnStop
  pub stop_grace : ℕ
  pub instance_id : Text
  pub label_prefix : Text
  pub delete_guard : ℕ × ℕ
  pub delete_guard_min : ℕ

-- A write to the server, with what it answered where the worker reads on from there.
pub data Call (E : Env) : Type 0 where
  created : E.Resource → Option E.Resource → Call E
  updated : ℕ → E.Resource → Call E
  toggled : Kind → ℕ → Bool → Call E
  deleted : Kind → ℕ → Call E

-- The reasons that `guardDeletions` gives for a refusal.
pub data Blocked : Type 0 where
  prefix_changed no_containers everything share_exceeded : Blocked

-- `Status`, as far as the worker keeps it itself: `lastRun` (`none` is the zero time), `lastErr`
-- (the joined errors, none for nil), `lastFailed` and `blocked`.
pub record Status (E : Env) : Type 0 where
  pub last_run : Option ℕ
  pub last_err : List (Problem E.Error)
  pub last_failed : ℕ
  pub blocked : Option Blocked

-- `Worker`, with the world it acts on and the writes it has made, the newest first. The
-- certificates counted for the metrics are `chosen`.
pub record Worker (E : Env) : Type 0 where
  pub server : E.Server
  pub calls : List (Call E)
  pub cache : Cache
  pub certificates : List Certificate
  pub certificate_hash : Text
  pub access_lists : Dict ℕ
  pub failures : Dict Failure
  pub stopped_since : Dict ℕ
  pub chosen : List Class
  pub status : Status E

-- `Result`, the counters of a run.
pub record Counters : Type 0 where
  pub created : ℕ
  pub updated : ℕ
  pub deleted : ℕ
  pub unchanged : ℕ
  pub skipped : ℕ
  pub failed : ℕ
