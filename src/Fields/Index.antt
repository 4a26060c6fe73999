-- ===== src/Fields/Index.antt =====
-- The lookup of fields by any of their spellings, and the hint for a misspelling, of
-- internal/fields/fields.go.
pub mod Laws
pub mod Suggestion
use npmplus_docker_sync.Base.{
  ℕ, ◌+◌, ◌/◌, ltb, Bool, true, false, Option, none, some, List, [], ◌∷◌, if◌then◌else◌, is_empty,
  length, map,
}
use npmplus_docker_sync.Base.Dict.{Dict, insert, lookup, keys}
use npmplus_docker_sync.Base.Sort.{sort_texts}
use npmplus_docker_sync.Base.Text.{Text, text}
use npmplus_docker_sync.Fields.Distance.{levenshtein}
use npmplus_docker_sync.Fields.Names.{normalize}
use npmplus_docker_sync.Fields.Shared.Constants.{
  name_crowdsec_appsec, name_request_buffering, name_response_buffering,
}
use npmplus_docker_sync.Fields.Tables.{table, location_fields}
use npmplus_docker_sync.Fields.Types.{Field}
use npmplus_docker_sync.Npm.Kind.{Kind}

normalized : List Text → List Text
normalized [] = []
normalized (a ∷ more) = normalize a ∷ normalized more

-- `Field.spellings`
unfoldable pub spellings : Field → List Text
unfolding normalized normalize
spellings f = normalize f.name ∷ normalized f.aliases

abbrev insert_all : Field → List Text → Dict Field → Dict Field
insert_all f [] m = m
insert_all f (s ∷ more) m = insert_all f more (insert s f m)

-- The loop of `init` over the fields of a table.
unfoldable pub index_fields : List Field → Dict Field → Dict Field
unfolding spellings insert
index_fields [] m = m
index_fields (f ∷ fs) m = index_fields fs (insert_all f (spellings f) m)

-- `index[kind]`
unfoldable pub index : Kind → Dict Field
unfolding index_fields
index kind = index_fields (table kind) []

-- `locationIndex`
unfoldable pub location_index : Dict Field
unfolding index_fields
location_index = index_fields location_fields []

-- `Lookup`
unfoldable pub lookup_field : Kind → Text → Option Field
unfolding lookup index normalize
lookup_field kind name = lookup (normalize name) (index kind)

-- `LookupLocation`
unfoldable pub lookup_location : Text → Option Field
unfolding lookup location_index normalize
lookup_location name = lookup (normalize name) location_index

-- `inverseAliases`
unfoldable inverse_aliases : Dict Text
unfolding normalize
inverse_aliases =
    (normalize (text "disable_crowdsec_appsec"), name_crowdsec_appsec)
    ∷ (normalize (text "disable_crowdsec"), name_crowdsec_appsec)
    ∷ (normalize (text "disable_request_buffering"), name_request_buffering)
    ∷ (normalize (text "disable_proxy_request_buffering"), name_request_buffering)
    ∷ (normalize (text "disable_response_buffering"), name_response_buffering)
    ∷ (normalize (text "disable_proxy_response_buffering"), name_response_buffering)
    ∷ []

-- `IsInverseAlias`
unfoldable pub inverse_alias : Text → Option Text
unfolding lookup inverse_aliases normalize
inverse_alias name = lookup (normalize name) inverse_aliases

-- The best candidate so far with its distance, `bestDistance` being `budget + 1` at first.
abbrev pub Closest : Type 0
Closest = Text × ℕ

abbrev pub name_at : Option Field → Text
name_at none = []
name_at (some f) = f.name

-- The loop of `suggestFrom` over the sorted spellings.
unfoldable pub closest : Dict Field → Text → List Text → Closest → Closest
unfolding levenshtein lookup
closest candidates wanted [] best = best
closest candidates wanted (s ∷ more) best =
    let d = levenshtein wanted s in
    closest candidates wanted more
      (if ltb d best.1 then (name_at (lookup s candidates), d) else best)

abbrev pub within_budget : ℕ → Closest → Text
within_budget budget best = if ltb budget best.1 then [] else best.0

-- `suggestFrom` for a name that is not blank.
unfoldable pub suggest_normalized : Dict Field → Text → Text
unfolding closest sort_texts keys
suggest_normalized candidates wanted =
    let budget = length wanted / 4 + 1 in
    within_budget budget (closest candidates wanted (sort_texts (keys candidates)) ([], budget + 1))

-- `suggestFrom`
unfoldable pub suggest_from : Dict Field → Text → Text
unfolding suggest_normalized normalize
suggest_from candidates name =
    let wanted = normalize name in
    if is_empty wanted then [] else suggest_normalized candidates wanted

-- `Suggest`
unfoldable pub suggest_field : Kind → Text → Text
unfolding suggest_from index
suggest_field kind name = suggest_from (index kind) name

-- `SuggestLocation`
unfoldable pub suggest_location : Text → Text
unfolding suggest_from location_index
suggest_location name = suggest_from location_index name
