-- ===== src/Docker/Scan.antt =====
-- The targets of all containers and the containers that are protected: `Parse`, `ParseAll` and `Scan`
-- of internal/docker/labels.go.
pub mod Laws
use npmplus_docker_sync.Base.{
  ℕ, suc, ◌+◌, ltb, ◌==◌, Bool, true, false, not, ◌&&◌, ◌||◌, Option, none, some, List, [], ◌∷◌,
  ◌++◌, inl, inr, if◌then◌else◌, is_empty, length, map,
}
use npmplus_docker_sync.Base.Sort.{sort}
use npmplus_docker_sync.Base.Text.{Text}
use npmplus_docker_sync.Docker.Address.{Container, ParseOptions}
use npmplus_docker_sync.Docker.Build.Stream.{take}
use npmplus_docker_sync.Docker.Build.Target.{build_target}
use npmplus_docker_sync.Docker.Checked.{LabelError, Checked, in_container}
use npmplus_docker_sync.Docker.FieldSet.{FieldSet}
use npmplus_docker_sync.Docker.Groups.{
  EntryKey, GroupMap, Grouped, LabelWarning, skipped, warn_container, group_labels, is_disabled,
}
use npmplus_docker_sync.Docker.Managed.{managed, is_accepted, classify}
use npmplus_docker_sync.Docker.Types.{Target, Snapshot}
use npmplus_docker_sync.Npm.Kind.{Kind, kinds, equal_kind}

-- `Result`
pub record ParseResult : Type 0 where
  pub targets : List Target
  pub errors : List LabelError
  pub warnings : List LabelWarning
  pub skipped_any : Bool

abbrev pub no_result : ParseResult
no_result = record { targets = []; errors = []; warnings = []; skipped_any = false }

-- `displayName`
unfoldable pub display_name : Container → Text
unfolding take
display_name c = if not (is_empty c.name) then c.name else take 12 c.id

place_of : ℕ → Kind → List Kind → ℕ
unfolding equal_kind
place_of n kind [] = n
place_of n kind (k ∷ ks) = if equal_kind k kind then n else place_of (suc n) kind ks

-- `kindOrder`
unfoldable kind_order : Kind → ℕ
unfolding place_of
kind_order kind = place_of 0 kind kinds

-- The order of the keys in `Parse`
unfoldable key_less : EntryKey → EntryKey → Bool
unfolding kind_order
key_less a b =
    if a.index == b.index then ltb (kind_order a.kind) (kind_order b.kind) else ltb a.index b.index

module _ (parses_ip4 : Text → Bool) (c : Container) (opts : ParseOptions) where
  add_built : Checked Target → ParseResult → ParseResult
  add_built (inl e) r = record r { errors = r.errors ++ (e ∷ []) }
  add_built (inr t) r = record r { targets = r.targets ++ (t ∷ []) }

  add_skipped : EntryKey → ParseResult → ParseResult
  add_skipped key r = record r {
    warnings = r.warnings ++ (skipped (display_name c) key ∷ []);
    skipped_any = true;
  }

  -- The body of the loop of `Parse`.
  unfoldable parse_group : List (ℕ × Bool) → EntryKey × FieldSet → ParseResult → ParseResult
  unfolding add_built add_skipped build_target is_disabled
  parse_group disabled (key, f) r =
      if is_disabled key.index disabled
      then r
      else if f.tainted && opts.strict_labels
      then add_skipped key r
      else add_built (build_target parses_ip4 c opts key f) r

  unfoldable parse_groups : List (ℕ × Bool) → GroupMap → ParseResult → ParseResult
  unfolding parse_group
  parse_groups disabled [] r = r
  parse_groups disabled (g ∷ gs) r = parse_groups disabled gs (parse_group disabled g r)

  parse_grouped : Grouped → ParseResult
  unfolding parse_groups sort key_less
  parse_grouped g =
      parse_groups g.disabled (sort (λ a b. key_less a.0 b.0) g.groups)
        (record no_result { errors = g.errors; warnings = g.warnings })

  -- `Parse`
  unfoldable pub parse : ParseResult
  unfolding parse_grouped group_labels managed
  parse = if is_accepted (managed c opts) then parse_grouped (group_labels c opts) else no_result

abbrev pub errors_of : Container → List LabelError → List LabelError
errors_of c es = map (in_container (display_name c)) es

abbrev pub warnings_of : Container → List LabelWarning → List LabelWarning
warnings_of c ws = map (warn_container (display_name c)) ws

-- What the loop of `ParseAll` adds to the result for one container.
abbrev pub add_result : Container → ParseResult → ParseResult → ParseResult
add_result c one r = record r {
  targets = r.targets ++ one.targets;
  errors = r.errors ++ errors_of c one.errors;
  warnings = r.warnings ++ warnings_of c one.warnings;
}

-- The condition of `Scan` under which a container is protected.
abbrev pub is_broken : ParseOptions → ParseResult → Bool
is_broken opts one = not (is_empty one.errors) || one.skipped_any && opts.strict_labels

abbrev unless_empty : Text → List Text → List Text
unless_empty t rest = if is_empty t then rest else t ∷ rest

abbrev pub protect : ParseOptions → Container → ParseResult → List Text → List Text
protect opts c one protected =
    if is_broken opts one then unless_empty c.id (unless_empty c.name protected) else protected

-- What the loop of `Scan` changes: two fields of the snapshot and two of the result.
pub record Scanned : Type 0 where
  pub targets : List Target
  pub errors : List LabelError
  pub warnings : List LabelWarning
  pub protected : List Text

abbrev pub nothing_scanned : Scanned
nothing_scanned = record { targets = []; errors = []; warnings = []; protected = [] }

-- The body of the loop of `Scan`.
abbrev pub add_scanned : ParseOptions → Container → ParseResult → Scanned → Scanned
add_scanned opts c one s = record {
  targets = s.targets ++ one.targets;
  errors = s.errors ++ errors_of c one.errors;
  warnings = s.warnings ++ warnings_of c one.warnings;
  protected = protect opts c one s.protected;
}

module _ (parses_ip4 : Text → Bool) (opts : ParseOptions) where
  unfoldable pub parse_all_from : ParseResult → List Container → ParseResult
  unfolding parse
  parse_all_from r [] = r
  parse_all_from r (c ∷ cs) = parse_all_from (add_result c (parse parses_ip4 c opts) r) cs

  -- `ParseAll`
  unfoldable pub parse_all : List Container → ParseResult
  unfolding parse_all_from
  parse_all cs = parse_all_from no_result cs

  -- The loop of `Scan`, which fills the targets and the set Protected of the snapshot, and the errors and
  -- the warnings of the result.
  unfoldable pub scan_from : Scanned → List Container → Scanned
  unfolding parse
  scan_from s [] = s
  scan_from s (c ∷ cs) =
      let one = parse parses_ip4 c opts in scan_from (add_scanned opts c one s) cs

  -- `Scan`
  unfoldable pub scan : List Container → Snapshot × ParseResult
  unfolding scan_from classify
  scan cs =
      let s = scan_from nothing_scanned cs in
      (
        record {
          targets = s.targets;
          protected = s.protected;
          summary = classify cs opts;
          containers = length cs;
        },
        record no_result { errors = s.errors; warnings = s.warnings },
      )
