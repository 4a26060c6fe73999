-- ===== src/Docker/Managed.antt =====
-- Which containers are synchronised: `Managed` and `Classify` of internal/docker/labels.go.
pub mod Laws
use npmplus_docker_sync.Base.{
  ℕ, suc, Bool, true, false, not, ◌&&◌, ◌||◌, Option, none, some, List, [], ◌∷◌, ◌⊎◌, inl, inr,
  if◌then◌else◌, is_empty,
}
use npmplus_docker_sync.Base.Dict.{Dict}
use npmplus_docker_sync.Base.Text.{Text, text, ◌=?◌, trim_space}
use npmplus_docker_sync.Docker.Address.{Container, ParseOptions, running}
use npmplus_docker_sync.Docker.Labels.{
  NameError, LabelName, normalize_prefix, trim_prefix, split_label,
}
use npmplus_docker_sync.Docker.Types.{Summary}
use npmplus_docker_sync.Fields.Names.{normalize}
use npmplus_docker_sync.Fields.Shared.Constants.{name_enable}
use npmplus_docker_sync.Fields.Types.{ValueError, parse_bool}

-- What a label is for the container as a whole.
pub data LabelUse : Type 0 where
  foreign_label enable_label : LabelUse
  other_label : Text → LabelUse

use_of_rest : Option Text → LabelUse
unfolding normalize ◌=?◌
use_of_rest none = foreign_label
use_of_rest (some rest) = if normalize rest =? name_enable then enable_label else other_label rest

unfoldable pub label_use : Text → Text → LabelUse
unfolding use_of_rest trim_prefix
label_use prefix name = use_of_rest (trim_prefix name prefix)

enable_or : Text → LabelUse → Option Text → Option Text
unfolding trim_space
enable_or v enable_label rest = some (trim_space v)
enable_or v _ rest = rest

-- `lookupEnable`. The order of the labels is the one in which the range over the map meets them.
unfoldable pub lookup_enable : Text → Dict Text → Option Text
unfolding enable_or label_use
lookup_enable prefix [] = none
lookup_enable prefix ((name, v) ∷ labels) =
    enable_or v (label_use prefix name) (lookup_enable prefix labels)

names_field : LabelUse → Bool
unfolding split_label
names_field (other_label rest) = elim (split_label rest) [ inl e ↦ false | inr p ↦ true ]
names_field _ = false

-- `hasFieldLabel`
unfoldable has_field_label : Text → Dict Text → Bool
unfolding names_field label_use
has_field_label prefix [] = false
has_field_label prefix ((name, v) ∷ labels) =
    names_field (label_use prefix name) || has_field_label prefix labels

-- The results of `Managed`: `accepted` is true, the others are false with their reason.
pub data Verdict : Type 0 where
  accepted own_container opt_out no_opt_in no_labels : Verdict
  invalid_enable : Text → Verdict

by_enable : Text → ValueError ⊎ Bool → Verdict
by_enable v (inl e) = invalid_enable v
by_enable v (inr false) = opt_out
by_enable v (inr true) = accepted

by_labels : ParseOptions → Text → Container → Option Text → Verdict
unfolding by_enable parse_bool has_field_label
by_labels opts prefix c (some v) = by_enable v (parse_bool v)
by_labels opts prefix c none =
    if not opts.exposed_by_default
    then no_opt_in
    else if has_field_label prefix c.labels
    then accepted
    else no_labels

-- `Managed`
unfoldable pub managed : Container → ParseOptions → Verdict
unfolding by_labels lookup_enable normalize_prefix ◌=?◌
managed c opts =
    let prefix = normalize_prefix opts.prefix in
    if not (is_empty opts.self_id) && (c.id =? opts.self_id)
    then own_container
    else by_labels opts prefix c (lookup_enable prefix c.labels)

abbrev pub is_accepted : Verdict → Bool
is_accepted accepted = true
is_accepted _ = false

-- The body of the loop of `Classify`.
unfoldable pub add_verdict : Verdict → Bool → Summary → Summary
add_verdict accepted true s = record s { managed = suc s.managed }
add_verdict accepted false s = record s { managed = suc s.managed; stopped = suc s.stopped }
add_verdict opt_out up s = record s { opted_out = suc s.opted_out }
add_verdict _ up s = record s { unlabeled = suc s.unlabeled }

unfoldable pub classify_from : Summary → List Container → ParseOptions → Summary
unfolding add_verdict managed running
classify_from s [] opts = s
classify_from s (c ∷ cs) opts = classify_from (add_verdict (managed c opts) (running c) s) cs opts

abbrev pub no_containers : Summary
no_containers = record { managed = 0; opted_out = 0; unlabeled = 0; stopped = 0 }

-- `Classify`
unfoldable pub classify : List Container → ParseOptions → Summary
unfolding classify_from
classify cs opts = classify_from no_containers cs opts
