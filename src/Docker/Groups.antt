-- ===== src/Docker/Groups.antt =====
-- The labels of a container by resource: `groupLabels` of internal/docker/labels.go.
use npmplus_docker_sync.Base.{
  ℕ, ◌==◌, Bool, true, false, not, ◌&&◌, Option, none, some, List, [], ◌∷◌, ◌++◌, ◌⊎◌, inl, inr,
  if◌then◌else◌, is_empty,
}
use npmplus_docker_sync.Base.Dict.{Dict, insert, lookup, keys}
use npmplus_docker_sync.Base.Sort.{sort_texts}
use npmplus_docker_sync.Base.Text.{Text, ◌=?◌, trim_space}
use npmplus_docker_sync.Docker.Address.{Container, ParseOptions}
use npmplus_docker_sync.Docker.Checked.{LabelError, in_label, of_name, bad_value}
use npmplus_docker_sync.Docker.FieldSet.{FieldSet, new_field_set, text_of}
use npmplus_docker_sync.Docker.Labels.{
  NameError, LabelName, Resolved, normalize_prefix, split_label, resolve_field, suggest,
}
use npmplus_docker_sync.Docker.Managed.{
  LabelUse, foreign_label, enable_label, other_label, label_use,
}
use npmplus_docker_sync.Fields.Defaults.{Defaults}
use npmplus_docker_sync.Fields.Shared.Constants.{name_enable}
use npmplus_docker_sync.Fields.Types.{ValueError, parse_bool, format_bool}
use npmplus_docker_sync.Npm.Kind.{Kind, equal_kind}

-- `entryKey`
pub record EntryKey : Type 0 where
  pub kind : Kind
  pub index : ℕ

unfoldable equal_key : EntryKey → EntryKey → Bool
unfolding equal_kind
equal_key a b = equal_kind a.kind b.kind && a.index == b.index

-- The warnings, with what their messages show.
pub data LabelWarning : Type 0 where
  unknown_label : Text → Kind → Text → LabelWarning
  skipped : Text → EntryKey → LabelWarning
  warn_container : Text → LabelWarning → LabelWarning

-- The map from keys to field sets.
abbrev pub GroupMap : Type 0
GroupMap = List (EntryKey × FieldSet)

unfoldable get_group : EntryKey → GroupMap → Option FieldSet
unfolding equal_key
get_group k [] = none
get_group k ((j, f) ∷ m) = if equal_key j k then some f else get_group k m

unfoldable set_group : EntryKey → FieldSet → GroupMap → GroupMap
unfolding equal_key
set_group k f [] = (k, f) ∷ []
set_group k f ((j, g) ∷ m) = if equal_key j k then (k, f) ∷ m else (j, g) ∷ set_group k f m

-- `groups`, `disabled` and the problems; the map `disabled` has the latest entry in front.
pub record Grouped : Type 0 where
  pub groups : GroupMap
  pub disabled : List (ℕ × Bool)
  pub errors : List LabelError
  pub warnings : List LabelWarning

abbrev nothing_grouped : Grouped
nothing_grouped = record { groups = []; disabled = []; errors = []; warnings = [] }

-- `disabled[index]`
unfoldable pub is_disabled : ℕ → List (ℕ × Bool) → Bool
is_disabled n [] = false
is_disabled n ((m, b) ∷ ds) = if m == n then b else is_disabled n ds

abbrev add_error : Text → LabelError → Grouped → Grouped
add_error name e g = record g { errors = g.errors ++ (in_label name e ∷ []) }

abbrev switch_index : Text → ℕ → ValueError ⊎ Bool → Grouped → Grouped
switch_index name index (inl e) g = add_error name (bad_value e) g
switch_index name index (inr enabled) g = record g { disabled = (index, not enabled) ∷ g.disabled }

unfoldable pub with_value : Text → Text → Text → FieldSet → FieldSet
unfolding insert
with_value name canonical v f = record f {
  values = insert canonical v f.values;
  labels = insert canonical name f.labels;
}

unfoldable pub put_group : EntryKey → FieldSet → Grouped → Grouped
unfolding set_group
put_group key f g = record g { groups = set_group key f g.groups }

negated : Text → Text → EntryKey → FieldSet → ValueError ⊎ Bool → Grouped → Grouped
negated name canonical key f (inl e) g = add_error name (bad_value e) g
negated name canonical key f (inr b) g =
    put_group key (with_value name canonical (format_bool (not b)) f) g

store_value : Text → Text → Text → EntryKey → FieldSet → Option Resolved → Grouped → Grouped
unfolding negated parse_bool suggest
store_value name field v key f none g =
    let tainted = put_group key (record f { tainted = true }) g in
    record tainted {
      warnings = g.warnings ++ (unknown_label name key.kind (suggest key.kind field) ∷ []);
    }
store_value name field v key f (some r) g =
    if r.inverted
    then negated name r.canonical key f (parse_bool v) g
    else put_group key (with_value name r.canonical v f) g

group_or : FieldSet → Option FieldSet → FieldSet
group_or f none = f
group_or f (some g) = g

module _ (prefix : Text) (defaults : Option Defaults) where
  -- `groups[key]`, created where it does not exist.
  unfoldable group_at : EntryKey → Grouped → FieldSet
  unfolding group_or get_group
  group_at key g =
      group_or (new_field_set prefix key.kind key.index defaults) (get_group key g.groups)

  unfoldable pub group_field : Text → Text → Text → LabelName → Grouped → Grouped
  unfolding store_value resolve_field group_at parse_bool ◌=?◌
  group_field name v field p g =
      let key : EntryKey = record { kind = p.kind; index = p.index } in
      let f = group_at key g in
      if (field =? name_enable) && not p.kind_set
      then switch_index name p.index (parse_bool v) g
      else store_value name field v key f (resolve_field p.kind field) (put_group key f g)

  group_split : Text → Text → NameError ⊎ LabelName × Text → Grouped → Grouped
  unfolding group_field
  group_split name v (inl e) g = add_error name (of_name e) g
  group_split name v (inr (p, field)) g = group_field name v field p g

  group_used : Text → Text → LabelUse → Grouped → Grouped
  unfolding group_split split_label
  group_used name v foreign_label g = g
  group_used name v enable_label g = g
  group_used name v (other_label rest) g =
      if is_empty rest then g else group_split name v (split_label rest) g

  -- The body of the loop of `groupLabels`.
  unfoldable group_label : Text → Text → Grouped → Grouped
  unfolding group_used label_use trim_space
  group_label name v g = group_used name (trim_space v) (label_use prefix name) g

  unfoldable group_names : List Text → Dict Text → Grouped → Grouped
  unfolding group_label lookup
  group_names [] labels g = g
  group_names (name ∷ names) labels g =
      group_names names labels (group_label name (text_of (lookup name labels)) g)

-- `groupLabels`
unfoldable pub group_labels : Container → ParseOptions → Grouped
unfolding group_names sort_texts keys normalize_prefix
group_labels c opts =
    group_names (normalize_prefix opts.prefix) opts.defaults (sort_texts (keys c.labels)) c.labels
      nothing_grouped
