-- ===== src/Docker/Build/Values.antt =====
-- The settings of a target that are read from one field: the group, the certificate and the headers,
-- and the fields that the labels set, from internal/docker/build.go.
use npmplus_docker_sync.Base.{
  ℕ, ltb, leb, ◌==◌, Bool, true, not, ◌&&◌, Option, none, some, List, [], ◌∷◌, inl, inr,
  if◌then◌else◌, any, is_empty, length,
}
use npmplus_docker_sync.Base.Dict.{lookup, keys}
use npmplus_docker_sync.Base.Sort.{sort_texts}
use npmplus_docker_sync.Base.Text.{Text, text, ◌=?◌, trim_space, to_lower, contains_byte}
use npmplus_docker_sync.Certs.Parsing.{parse_spec}
use npmplus_docker_sync.Certs.Types.{Spec}
use npmplus_docker_sync.Docker.Checked.{
  LabelError, Checked, ◌>>=◌, group_too_long, bad_certificate, required, moved_to_domains,
}
use npmplus_docker_sync.Docker.FieldSet.{FieldSet, string, source, name_of, raw, enum}
use npmplus_docker_sync.Fields.Index.{lookup_field}
use npmplus_docker_sync.Fields.Names.{normalize}
use npmplus_docker_sync.Fields.Shared.Constants.{
  name_group, name_certificate, name_xframe_options, name_domains, name_forward_host,
}
use npmplus_docker_sync.Fields.Types.{Field}
use npmplus_docker_sync.Npm.Kind.{Kind}

-- The names of the fields that are found and pass the test.
names_of_found : (Field → Bool) → Option Field → List Text → List Text
names_of_found test none rest = rest
names_of_found test (some f) rest = if test f then f.name ∷ rest else rest

unfoldable found_names : (Field → Bool) → Kind → List Text → List Text
unfolding names_of_found lookup_field
found_names test kind [] = []
found_names test kind (name ∷ names) =
    names_of_found test (lookup_field kind name) (found_names test kind names)

-- `explicitPlus`
unfoldable pub explicit_plus : Kind → FieldSet → List Text
unfolding found_names sort_texts keys
explicit_plus kind f = sort_texts (found_names (λ d. d.plus) kind (keys f.values))

-- `explicitFields`
unfoldable pub explicit_fields : Kind → FieldSet → List Text
unfolding found_names sort_texts keys
explicit_fields kind f = sort_texts (found_names (λ d. true) kind (keys f.values))

abbrev not_ip_byte : ℕ → Bool
not_ip_byte c = not (leb b'0' c && leb c b'9') && not (c == b'.')

-- `isDomainish`
unfoldable is_domainish : Text → Bool
unfolding trim_space contains_byte
is_domainish v =
    let t = trim_space v in not (is_empty t) && (contains_byte t b'.' && any not_ip_byte t)

missing_at : FieldSet → Option Text → LabelError
unfolding is_domainish raw name_of
missing_at f none = required (name_of f name_domains)
missing_at f (some label) =
    if is_domainish (raw f name_forward_host)
    then moved_to_domains (name_of f name_domains) label
    else required (name_of f name_domains)

-- `missingDomains`
unfoldable pub missing_domains : FieldSet → LabelError
unfolding missing_at lookup normalize
missing_domains f = missing_at f (lookup (normalize name_forward_host) f.labels)

-- `npm.MaxDirectoryLength`
abbrev max_directory_length : ℕ
max_directory_length = 255

-- `groupSpec`
unfoldable pub group_spec : FieldSet → Checked (Option Text)
unfolding string source trim_space to_lower ◌=?◌
group_spec f =
    let v = trim_space (string f name_group) in
    if is_empty v
    then inr none
    else if any (λ w. to_lower v =? w) (text "none" ∷ text "off" ∷ text "-" ∷ [])
    then inr (some [])
    else if ltb max_directory_length (length v)
    then inl (group_too_long (source f name_group) (length v))
    else inr (some v)

spec_or : Text → Option Spec → Checked Spec
spec_or s none = inl (bad_certificate s)
spec_or s (some spec) = inr spec

-- `certificateSpec`
unfoldable pub certificate_spec : FieldSet → Checked Spec
unfolding spec_or parse_spec string source
certificate_spec f = spec_or (source f name_certificate) (parse_spec (string f name_certificate))

unfoldable pub header_spelling : Text → Text
unfolding ◌=?◌
header_spelling v =
    if v =? text "deny"
    then text "DENY"
    else if v =? text "sameorigin"
    then text "SAMEORIGIN"
    else v

-- `xFrameOptions`
unfoldable pub x_frame_options : FieldSet → Checked Text
unfolding enum ◌=?◌
x_frame_options f = enum f name_xframe_options >>= λ v. inr (header_spelling v)
