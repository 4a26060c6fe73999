-- ===== src/Syncer/Collection.antt =====
-- The first loop of `reconcileKind` in internal/syncer/worker.go, over the desired targets of one
-- collection of the server.
pub mod Indexes
pub mod Trace
pub mod Counting
use npmplus_docker_sync.Base.{
  ℕ, suc, Bool, true, false, not, ◌&&◌, Option, none, some, List, [], ◌∷◌, ◌++◌, ◌⊎◌, inl, inr,
  if◌then◌else◌, length, keep,
}
use npmplus_docker_sync.Base.Dict
use npmplus_docker_sync.Base.Dict.{Dict}
use npmplus_docker_sync.Base.Sort.{sort_texts}
use npmplus_docker_sync.Base.Text.{Text, ◌=?◌}
use npmplus_docker_sync.Docker.Types.{
  OnStop, disable, keep as keep_it, delete, Target, Snapshot, is_protected,
}
use npmplus_docker_sync.Npm.Dialect.{Dialect}
use npmplus_docker_sync.Npm.Kind.{Kind}
use npmplus_docker_sync.Npm.Meta.{container, container_id, prefix_of}
use npmplus_docker_sync.Syncer.Cache.{Entry, replace_kind}
use npmplus_docker_sync.Syncer.Lookups.{clock}
use npmplus_docker_sync.Syncer.Ownership.{owns, index_resources, index_domains, index_targets}
use npmplus_docker_sync.Syncer.Stopped.{apply_stop_policy}
use npmplus_docker_sync.Syncer.Types.{Env, Worker, Options, Problem, list_failed, Counters}
use npmplus_docker_sync.Syncer.Visit.{visit}
use npmplus_docker_sync.Syncer.Write.{
  Outcome, skipped, unchanged, created, updated, failed, Visit, Report,
}

-- The variables of `reconcileKind` that its loops only read.
pub record Loop (E : Env) : Type 0 where
  pub options : Options
  pub kind : Kind
  pub now : ℕ
  pub dialect : Dialect
  pub by_domain : Dict E.Resource
  pub existing : Dict E.Resource
  pub desired : Dict Target
  pub snapshot : Snapshot

-- The variables that the first loop changes.
pub record Pass (E : Env) : Type 0 where
  pub result : Counters
  pub problems : List (Problem E.Error)
  pub next : Dict Entry
  pub worker : Worker E

abbrev pub no_counters : Counters
no_counters = record {
  created = 0;
  updated = 0;
  deleted = 0;
  unchanged = 0;
  skipped = 0;
  failed = 0;
}

-- `sortedKeys`
unfoldable pub sorted_keys {ℓ} : {V : Type ℓ} → Dict V → List Text
unfolding sort_texts Dict.keys
sorted_keys m = sort_texts (Dict.keys m)

module _ (E : Env) where
  -- The counter that an outcome adds one to.
  unfoldable pub count : Outcome E → Counters → Counters
  count skipped c = record c { skipped = suc c.skipped }
  count unchanged c = record c { unchanged = suc c.unchanged }
  count created c = record c { created = suc c.created }
  count updated c = record c { updated = suc c.updated }
  count (failed p) c = record c { failed = suc c.failed }

  abbrev problem_of : Outcome E → List (Problem E.Error)
  problem_of (failed p) = p ∷ []
  problem_of _ = []

  abbrev put_entry : Text → Option Entry → Dict Entry → Dict Entry
  put_entry key none next = next
  put_entry key (some e) next = Dict.insert key e next

  abbrev add_report : Text → Pass E → Report E → Pass E
  add_report key p (outcome, entry, w) = record {
    result = count outcome p.result;
    problems = p.problems ++ problem_of outcome;
    next = put_entry key entry p.next;
    worker = w;
  }

  abbrev pub visit_of : Loop E → Text → Target → Visit E
  visit_of l key t = record {
    options = l.options;
    kind = l.kind;
    key = key;
    now = l.now;
    dialect = l.dialect;
    by_domain = l.by_domain;
    target = t;
  }

  abbrev pub visit_target : Loop E → Text → Option Target → Pass E → Pass E
  visit_target l key none p = p
  visit_target l key (some t) p =
      add_report key p (visit E (visit_of l key t) (Dict.lookup key l.existing) p.worker)

  -- The first loop, over the sorted keys of the desired targets.
  unfoldable pub visit_keys : Loop E → List Text → Pass E → Pass E
  unfolding visit count
  visit_keys l [] p = p
  visit_keys l (key ∷ keys) p = visit_keys l keys (visit_target l key (Dict.lookup key l.desired) p)
