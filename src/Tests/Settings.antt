-- ===== src/Tests/Settings.antt =====
-- The fields, their defaults and the cache's specification at concrete inputs (internal/fields).
use npmplus_docker_sync.Base.{◌≡◌, ◌↔◌, refl, inr, [], some, In, here, there, if◌then◌else◌}
use npmplus_docker_sync.Base.Text.{Text, text, ◌=?◌}
use npmplus_docker_sync.Fields.Defaults.{builtin, env_names, value, source_of, load_defaults}
use npmplus_docker_sync.Fields.Defaults.Names.{FirstSet, variables}
use npmplus_docker_sync.Fields.Defaults.Laws.{effective, expected, value-load_defaults}
use npmplus_docker_sync.Fields.Distance.{levenshtein}
use npmplus_docker_sync.Fields.Distance.Laws.{IsLeast, levenshtein-IsLeast}
use npmplus_docker_sync.Fields.Index.{index, lookup_field, spellings, suggest_from}
use npmplus_docker_sync.Fields.Index.Laws.{lookup_field_iff}
use npmplus_docker_sync.Fields.Index.Suggestion.{Suggested, suggest_from-Suggested}
use npmplus_docker_sync.Fields.Names.{normalize}
use npmplus_docker_sync.Fields.Shared.{enabled_field}
use npmplus_docker_sync.Fields.Tables.{table}
use npmplus_docker_sync.Fields.Types.{parse}
use npmplus_docker_sync.Npm.Kind.{proxy, dead}

normalized : normalize (text "SSL-HSTS_Subdomains.") ≡ text "ssl.hsts.subdomains"
unfolding normalize
normalized = refl

lookup_field_iff_example :
    (lookup_field dead (text "Enable") ≡ some enabled_field)
    ↔ (In enabled_field (table dead) × In (normalize (text "Enable")) (spellings enabled_field))
lookup_field_iff_example = lookup_field_iff dead (text "Enable") enabled_field

found_by_alias : lookup_field dead (text "Enable") ≡ some enabled_field
unfolding lookup_field ◌=?◌
found_by_alias = refl

levenshtein-IsLeast_example :
    IsLeast (levenshtein (text "kitten") (text "sitting")) (text "kitten") (text "sitting")
levenshtein-IsLeast_example = levenshtein-IsLeast (text "kitten") (text "sitting")

three_edits : levenshtein (text "kitten") (text "sitting") ≡ 3
unfolding levenshtein
three_edits = refl

suggested : suggest_from (index proxy) (text "domian") ≡ text "domains"
unfolding suggest_from index
suggested = refl

suggest_from-Suggested_example :
    Suggested (index proxy) (normalize (text "domian")) (text "domains")
suggest_from-Suggested_example =
    suggest_from-Suggested (index proxy) (text "domian") (text "domains") suggested refl

parsed : parse enabled_field (text " YES ") ≡ inr (text "true")
unfolding parse
parsed = refl

abbrev environment : Text → Text
unfolding ◌=?◌
environment name = if name =? text "NPM_DEFAULT_ENABLE" then text " off " else []

from_environment :
    expected environment dead enabled_field ≡ (text "false", text "NPM_DEFAULT_ENABLE")
unfolding expected ◌=?◌ npmplus_docker_sync.Fields.Defaults.choose_variable
    npmplus_docker_sync.Fields.Defaults.env_names parse
    npmplus_docker_sync.Fields.Defaults.kind_prefix
from_environment = refl

value-load_defaults_example :
    (c : Text × Text) × FirstSet environment (variables dead enabled_field) enabled_field.default c
    × (◌≡◌ {A = Text × Text}
        (
          value (some (load_defaults environment []).0) dead enabled_field.name,
          source_of (some (load_defaults environment []).0) dead enabled_field.name,
        )
        (if c.1 =? builtin then c else effective enabled_field (parse enabled_field c.0) c))
value-load_defaults_example =
    value-load_defaults environment [] dead enabled_field (there (there (there (here refl))))
      (there (there (here refl)))
