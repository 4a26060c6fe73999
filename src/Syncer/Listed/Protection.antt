-- ===== src/Syncer/Listed/Protection.antt =====
-- The label parser and the reconciler together: what happens to the resources of a container whose
-- labels have errors.
use npmplus_docker_sync.Base.{
  arith, Bool, false, List, In, ◌≡◌, ◌≢◌, subst, sym, is_empty, inl, inr,
}
use npmplus_docker_sync.Base.Text.{Text}
use npmplus_docker_sync.Docker.Address.{Container, ParseOptions}
use npmplus_docker_sync.Docker.Scan.{scan}
use npmplus_docker_sync.Docker.Scan.Laws.{HasErrors, scan_protected}
use npmplus_docker_sync.Docker.Types.{Target, is_protected}
use npmplus_docker_sync.Npm.Kind.{Kind}
use npmplus_docker_sync.Npm.Meta.{container, container_id}
use npmplus_docker_sync.Syncer.Listed.{reconcile_listed}
use npmplus_docker_sync.Syncer.Listed.Laws.{reconcile_listed-Removable}
use npmplus_docker_sync.Syncer.Orphans.{Orphan}
use npmplus_docker_sync.Syncer.Types.{Env, Options, Worker}

module _ (E : Env) (parses_ip4 : Text → Bool) (labels : ParseOptions) (cs : List Container) where
  -- The resource does not remember the id of a container of the scan whose labels have errors, nor its
  -- name.
  abbrev pub NotOfBroken : E.Resource → Type 0
  NotOfBroken r =
      (c : Container)
      → In c cs
      → HasErrors parses_ip4 labels c
      → ((is_empty c.id ≡ false → container_id (E.resource_meta r) ≢ c.id)
          × (is_empty c.name ≡ false → container (E.resource_meta r) ≢ c.name))

  -- A run that works from a scan finds no orphan among the resources of a container whose labels have
  -- errors, or of one with a resource that was skipped for an unknown label under STRICT_LABELS: the
  -- resource of every orphan remembers neither the id nor the name of such a container. A container that
  -- is not managed, as one whose enable label cannot be read, is not parsed and not meant.
  pub reconcile_listed-scan :
      (opts : Options) (k : Kind) (targets : List Target) (live : List E.Resource) (w : Worker E)
      (o : Orphan)
      → In o (reconcile_listed E opts k targets (scan parses_ip4 labels cs).0 live w).0.orphans
      → (r : E.Resource) × In r live × (o.id ≡ E.resource_id r) × NotOfBroken r
  reconcile_listed-scan opts k targets live w o m =
      let (r, i, _, same_id, _, _, free, _, _) =
        reconcile_listed-Removable E opts k targets (scan parses_ip4 labels cs).0 live w o m in
      (r, i, same_id, spared r free)
    where
      spared :
          (r : E.Resource)
          → is_protected
              (scan parses_ip4 labels cs).0
              (container (E.resource_meta r))
              (container_id (E.resource_meta r))
            ≡ false
          → NotOfBroken r
      spared r free c j h =
          let safe =
            scan_protected parses_ip4 labels c cs (container (E.resource_meta r))
              (container_id (E.resource_meta r)) j h in
          (
            λ some_id e.
                let k = safe (inl (subst (λ x. is_empty x ≡ false) (sym e) some_id, inl e)) in
                absurd (ground (arith, free, k)),
            λ some_name e.
                let k = safe (inr (subst (λ x. is_empty x ≡ false) (sym e) some_name, inr e)) in
                absurd (ground (arith, free, k)),
          )
