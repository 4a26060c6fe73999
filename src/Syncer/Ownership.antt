-- ===== src/Syncer/Ownership.antt =====
-- Who a live resource belongs to: `owns`, `ownership`, `foreignDomain` and the indexes of
-- internal/syncer/worker.go.
use npmplus_docker_sync.Base.{
  ◌==◌, ◌||◌, Bool, false, not, ◌&&◌, Option, none, some, List, [], ◌∷◌, if◌then◌else◌, ltb,
}
use npmplus_docker_sync.Base.Dict
use npmplus_docker_sync.Base.Dict.{Dict}
use npmplus_docker_sync.Base.Sort.{sort}
use npmplus_docker_sync.Base.Text.{Text, ◌=?◌, ◌<?◌}
use npmplus_docker_sync.Docker.Types.{Target, key, domains}
use npmplus_docker_sync.Npm.Meta.{Meta, is_managed, is_redth, owned_by_instance, owner, instance_of}
use npmplus_docker_sync.Syncer.Types.{Env, Options}

-- `Worker.owns` of the meta object.
unfoldable owns_meta : Options → Meta → Bool
owns_meta opts m =
    if is_managed m
    then owned_by_instance m opts.instance_id
    else opts.migrate_from_redth && is_redth m

-- What `Worker.ownership` answers: to skip the resource, to adopt it, or to use it. The reasons
-- are texts for the log.
pub data Decision : Type 0 where
  skip adopt use_it : Decision

-- `Worker.ownership` of the meta object.
unfoldable ownership_meta : Options → Meta → Decision
ownership_meta opts m =
    if is_managed m && not (owned_by_instance m opts.instance_id)
    then skip
    else if is_managed m && (instance_of m =? [] && not (opts.instance_id =? []))
    then adopt
    else if is_managed m
    then use_it
    else if is_redth m
    then (if opts.migrate_from_redth then adopt else skip)
    else if not (owner m =? [])
    then skip
    else if not opts.adopt_existing
    then skip
    else adopt

-- One round of `indexTargets` over the sorted targets, with the duplicates, of which the caller
-- uses only the number.
abbrev pub put_target : Target → Dict Target × List Target → Dict Target × List Target
put_target t (out, conflicts) =
    if key t =? []
    then (out, conflicts)
    else if Dict.has_key (key t) out
    then (out, t ∷ conflicts)
    else (Dict.insert (key t) t out, conflicts)

unfoldable pub put_targets : List Target → Dict Target × List Target → Dict Target × List Target
put_targets [] acc = acc
put_targets (t ∷ ts) acc = put_targets ts (put_target t acc)

-- The order of `indexTargets`.
unfoldable pub before : Target → Target → Bool
before a b =
    if not (key a =? key b)
    then key a <? key b
    else if not (a.container_name =? b.container_name)
    then a.container_name <? b.container_name
    else ltb a.index b.index

-- `indexTargets`
unfoldable pub index_targets : List Target → Dict Target × List Target
unfolding put_targets before
index_targets ts = put_targets (sort before ts) ([], [])

module _ (E : Env) where
  -- `Worker.owns`
  unfoldable pub owns : Options → E.Resource → Bool
  unfolding owns_meta
  owns opts r = owns_meta opts (E.resource_meta r)

  -- `Worker.ownership`
  unfoldable pub ownership : Options → E.Resource → Decision
  unfolding ownership_meta
  ownership opts r = ownership_meta opts (E.resource_meta r)

  abbrev managed_at : Text → Dict E.Resource → Bool
  managed_at k out = elim (Dict.lookup k out) [
    | none ↦ false
    | some r ↦ is_managed (E.resource_meta r)
  ]

  abbrev pub put_resource : E.Resource → Dict E.Resource → Dict E.Resource
  put_resource r out =
      if E.resource_key r =? [] || managed_at (E.resource_key r) out
      then out
      else Dict.insert (E.resource_key r) r out

  -- `indexResources`, from what the loop has so far.
  unfoldable pub index_resources : List E.Resource → Dict E.Resource → Dict E.Resource
  index_resources [] out = out
  index_resources (r ∷ rs) out = index_resources rs (put_resource r out)

  put_domains : E.Resource → List Text → Dict E.Resource → Dict E.Resource
  put_domains r [] out = out
  put_domains r (d ∷ ds) out =
      put_domains r ds (if managed_at d out then out else Dict.insert d r out)

  -- `indexDomains`, from what the loop has so far.
  unfoldable pub index_domains : List E.Resource → Dict E.Resource → Dict E.Resource
  unfolding put_domains
  index_domains [] out = out
  index_domains (r ∷ rs) out = elim (E.domains r) [
    | none ↦ index_domains rs out
    | some ds ↦ index_domains rs (put_domains r ds out)
  ]

  abbrev same_id : E.Resource → Option E.Resource → Bool
  same_id other none = false
  same_id other (some current) = E.resource_id other == E.resource_id current

  -- Whether one more domain is served by a resource that is neither ours nor the current one.
  abbrev pub served : Options → Option E.Resource → Option E.Resource → Bool
  served opts current none = false
  served opts current (some other) = not (owns opts other) && not (same_id other current)

  -- The loop of `foreignDomain`.
  unfoldable foreign_among : Options → Dict E.Resource → Option E.Resource → List Text → Bool
  foreign_among opts by_domain current [] = false
  foreign_among opts by_domain current (d ∷ ds) =
      served opts current (Dict.lookup d by_domain) || foreign_among opts by_domain current ds

  -- `foreignDomain`, as far as it is acted on: whether there is one.
  unfoldable pub foreign_domain : Options → Dict E.Resource → Target → Option E.Resource → Bool
  unfolding foreign_among
  foreign_domain opts by_domain t current = foreign_among opts by_domain current (domains t)
