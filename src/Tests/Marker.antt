-- ===== src/Tests/Marker.antt =====
-- The ownership marker at concrete inputs (internal/npm/marker.go, internal/npm/models.go).
use npmplus_docker_sync.Base.{
  Bool, true, false, List, [], ◌∷◌, ◌++◌, ◌≡◌, refl, arith, Option, none, some, if◌then◌else◌,
}
use npmplus_docker_sync.Base.Number.{pos}
use npmplus_docker_sync.Base.Text.{Text, text, split}
use npmplus_docker_sync.Npm.Dialect.{Dialect, npmplus}
use npmplus_docker_sync.Npm.Marker.{Marker, parse_marker, split_marker, with_marker, is_marker_line}
use npmplus_docker_sync.Npm.Marker.Lift.{lift_ownership}
use npmplus_docker_sync.Npm.Marker.Ownership.{
  Records, Disowned, lift_ownership-with_marker, lift_ownership_untrusted,
}
use npmplus_docker_sync.Npm.Marker.Parsing.{IsPrintable}
use npmplus_docker_sync.Npm.Marker.RoundTrip.{IsUserText, split_marker-with_marker}
use npmplus_docker_sync.Npm.Meta.{Meta, string, managed_by_key, managed_by_value, directory_key}

abbrev sample : Marker
sample = record {
  key = text "app.example.org";
  container = text "my app";
  container_id = [];
  index = pos 1;
  instance_id = text "home";
  label_prefix = text "npm";
}

abbrev user_config : Text
user_config = text "gzip on;"

sample-IsPrintable : IsPrintable sample
sample-IsPrintable = record {
  key_set = λ e. cc;
  key_bytes = ground arith;
  container_bytes = ground arith;
  container_id_bytes = tt;
  index_fits = ground arith;
  instance_bytes = ground arith;
  prefix_bytes = ground arith;
}

user_config-IsUserText : IsUserText user_config
unfolding is_marker_line split npmplus_docker_sync.Base.Text.has_prefix
    npmplus_docker_sync.Base.Text.trim_space
user_config-IsUserText = (refl, tt)

split_marker-with_marker_example :
    split_marker (with_marker user_config sample)
    ≡ record { user = user_config; trusted = some sample; found = true }
split_marker-with_marker_example =
    split_marker-with_marker sample sample-IsPrintable user_config user_config-IsUserText

abbrev claimed : Meta
claimed = (managed_by_key, string managed_by_value) ∷ []

lift_ownership-with_marker_example :
    (owned : Meta) × (lift_ownership
        (with_marker user_config sample)
        claimed
        (text "app.example.org")
      ≡ (user_config, owned, true))
    × Records owned sample
lift_ownership-with_marker_example =
    lift_ownership-with_marker user_config sample claimed sample-IsPrintable user_config-IsUserText

abbrev broken_config : Text
broken_config = text "# npmplus-docker-sync: nonsense"

lift_ownership_untrusted_example :
    Disowned claimed (lift_ownership broken_config claimed (text "app.example.org")).1
unfolding split_marker lift_ownership npmplus_docker_sync.Base.Text.contains split is_marker_line
    npmplus_docker_sync.Base.Text.trim_space parse_marker npmplus_docker_sync.Base.Text.cut
lift_ownership_untrusted_example =
    lift_ownership_untrusted broken_config claimed (text "app.example.org") refl refl

abbrev grouped : Meta
grouped = (directory_key, string (text "media")) ∷ []

abbrev no_schema : Dialect
no_schema = record {
  flavour = npmplus;
  version = record { major = 2; minor = 14; revision = 0 };
  schema = [];
  meta_retired = true;
}
