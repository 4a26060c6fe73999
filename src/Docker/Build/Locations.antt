-- ===== src/Docker/Build/Locations.antt =====
-- The location blocks of a proxy host: `parseLocations` and `buildLocation` of
-- internal/docker/build.go.
use npmplus_docker_sync.Base.{
  ℕ, ltb, Bool, true, false, not, ◌&&◌, Option, none, some, List, [], ◌∷◌, ◌++◌, ◌⊎◌, inl, inr,
  if◌then◌else◌, is_empty,
}
use npmplus_docker_sync.Base.Dict.{Dict, lookup}
use npmplus_docker_sync.Base.Number.{ℤ, pos, negsuc, itoa, atoi}
use npmplus_docker_sync.Base.Sort.{sort}
use npmplus_docker_sync.Base.Text.{Text, text, ◌=?◌, trim_space, to_lower, has_prefix}
use npmplus_docker_sync.Docker.Build.Access.{parse_access_list}
use npmplus_docker_sync.Npm.Locations.Access.{access_list_global}
use npmplus_docker_sync.Docker.Build.Blocks.{Blocks, collect_blocks}
use npmplus_docker_sync.Docker.Build.Values.{header_spelling}
use npmplus_docker_sync.Docker.Checked.{Checked, ◌>>=◌, in_source, required, not_a_slash}
use npmplus_docker_sync.Docker.FieldSet.{FieldSet, text_of, number_or, in_range}
use npmplus_docker_sync.Docker.Labels.{location_prefix}
use npmplus_docker_sync.Docker.Types.{Target}
use npmplus_docker_sync.Fields.Names.{normalize}
use npmplus_docker_sync.Fields.Shared.Constants
use npmplus_docker_sync.Fields.Types.{ValueError, not_one_of, parse_bool, validate_enum, is_port}
use npmplus_docker_sync.Npm.Kind.{to_text}
use npmplus_docker_sync.Npm.Types.{Location}

-- `label` of `buildLocation`, and the keys of `locationLabels`.
unfoldable location_label : FieldSet → ℕ → Text → Text
unfolding to_text itoa
location_label f n field =
    f.prefix
    ++ (b'.' ∷ to_text f.kind ++ (b'.' ∷ location_prefix ++ (itoa (pos n) ++ (b'.' ∷ field))))

-- `locationLabels`
unfoldable location_labels : FieldSet → ℕ → Dict Text → Dict Text
unfolding location_label
location_labels f n [] = []
location_labels f n ((field, v) ∷ values) =
    (field, location_label f n field) ∷ location_labels f n values

abbrev modifiers : Dict Text
modifiers =
    ([], [])
    ∷ (text "prefix", [])
    ∷ (text "exact", text "= ")
    ∷ (text "regex", text "~ ")
    ∷ (text "iregex", text "~* ")
    ∷ (text "prefer", text "^~ ")
    ∷ (text "named", text "@")
    ∷ []

found_modifier : Text → Option Text → ValueError ⊎ Text
found_modifier v none = inl (not_one_of v Constants.location_type_values)
found_modifier v (some m) = inr m

-- `locationModifier`
unfoldable location_modifier : Text → ValueError ⊎ Text
unfolding found_modifier lookup to_lower trim_space
location_modifier v = found_modifier v (lookup (to_lower (trim_space v)) modifiers)

-- `values[fields.Normalize(field)]`, trimmed.
unfoldable trimmed_at : Dict Text → Text → Text
unfolding lookup normalize trim_space
trimmed_at values field = trim_space (text_of (lookup (normalize field) values))

-- `values[fields.Normalize(field)]`
unfoldable untrimmed_at : Dict Text → Text → Text
unfolding lookup normalize
untrimmed_at values field = text_of (lookup (normalize field) values)

abbrev text_or : Text → Text → Text
text_or v default = if is_empty v then default else v

module _ (f : FieldSet) (n : ℕ) (values : Dict Text) where
  -- One of the switches: the value of the location, or what it inherits.
  unfoldable pub switch : Text → Bool → Checked Bool
  unfolding trimmed_at parse_bool location_label
  switch field inherited =
      let v = trimmed_at values field in
      if is_empty v then inr inherited else in_source (location_label f n field) (parse_bool v)

  -- A value of an enum, or what the location inherits.
  unfoldable pub choice : Text → List Text → Text → (Text → Text) → Checked Text
  unfolding trimmed_at validate_enum location_label
  choice field allowed inherited spelling =
      let v = trimmed_at values field in
      let checked = in_source (location_label f n field) (validate_enum allowed v) in
      if is_empty v then inr inherited else checked >>= λ w. inr (spelling w)

  natural : ℤ → ℕ
  natural (pos m) = m
  natural (negsuc m) = 0

  -- The port of the location, or that of the host.
  unfoldable location_port : ℕ → Checked ℕ
  unfolding trimmed_at location_label atoi is_port natural
  location_port inherited =
      let v = trimmed_at values Constants.name_forward_port in
      let label = location_label f n Constants.name_forward_port in
      if is_empty v
      then inr inherited
      else (number_or label v (atoi v) >>= in_range label) >>= λ m. inr (natural m)

  -- The path, with the test that a location that is not named begins with a slash.
  unfoldable pub location_path : Text → Checked Text
  unfolding trimmed_at location_label ◌=?◌ has_prefix
  location_path modifier =
      let path = trimmed_at values (text "path") in
      if not (modifier =? text "@") && not (has_prefix path (text "/"))
      then inl (not_a_slash (location_label f n (text "path")) path)
      else inr path

  present_path : Checked Text
  unfolding trimmed_at location_label
  present_path =
      let path = trimmed_at values (text "path") in
      if is_empty path then inl (required (location_label f n (text "path"))) else inr path

  location_scheme : Text → Checked Text
  unfolding trimmed_at location_label validate_enum to_lower
  location_scheme inherited =
      let scheme = text_or (to_lower (trimmed_at values Constants.name_forward_scheme)) inherited in
      in_source (location_label f n Constants.name_forward_scheme)
        (validate_enum Constants.scheme_values scheme)
      >>= λ w. inr scheme

  sub_set : FieldSet
  unfolding location_labels
  sub_set = record {
    prefix = f.prefix;
    kind = f.kind;
    index = f.index;
    values = values;
    labels = location_labels f n values;
    defaults = none;
    tainted = false;
  }

  -- `buildLocation`
  unfoldable build_location : Target → Checked Location
  unfolding present_path location_modifier location_path location_scheme location_port sub_set
      switch choice parse_access_list trimmed_at untrimmed_at ◌=?◌
  build_location t = do
    _ ← present_path
    modifier ←
        in_source (location_label f n (text "type"))
          (location_modifier (untrimmed_at values (text "type")))
    path ← location_path modifier
    scheme ← location_scheme t.forward_scheme
    port ← location_port t.forward_port
    lists ← parse_access_list sub_set access_list_global
    enabled ← switch Constants.name_enabled true
    no_index ← switch Constants.name_no_index t.no_index
    crowdsec ← switch Constants.name_crowdsec_appsec t.crowdsec_appsec
    request ← switch Constants.name_request_buffering t.request_buffering
    response ← switch Constants.name_response_buffering t.response_buffering
    compression ← switch Constants.name_upstream_compression t.upstream_compression
    fancy ← switch Constants.name_fancy_index t.fancy_index
    frame ←
        choice Constants.name_xframe_options Constants.xframe_options_values t.x_frame_options
          header_spelling
    auth ← choice Constants.name_auth_request Constants.auth_request_values t.auth_request (λ v. v)
    inr (record {
      path = path;
      location_type = modifier;
      advanced_config = untrimmed_at values Constants.name_advanced_config;
      location_config = untrimmed_at values Constants.name_location_config;
      forward_scheme = scheme;
      forward_host = text_or (trimmed_at values Constants.name_forward_host) t.forward_host;
      forward_port = port;
      access_list_ids = lists.ids;
      access_list_type = lists.list_type;
      access_list_names = lists.names;
      enabled = some enabled;
      no_index = no_index;
      disable_crowdsec_appsec = not crowdsec;
      disable_request_buffering = not request;
      disable_response_buffering = not response;
      upstream_compression = compression;
      fancy_index = fancy;
      x_frame_options = frame;
      auth_request = auth;
      auth_request_upstream =
          text_or (trimmed_at values Constants.name_auth_request_upstream) t.auth_request_upstream;
    })

-- The loop over the sorted numbers.
unfoldable build_locations : Target → FieldSet → Blocks → Checked (List Location)
unfolding build_location
build_locations t f [] = inr []
build_locations t f ((n, values) ∷ bs) =
    let rest = build_locations t f bs in
    build_location f n values t >>= λ l. (rest >>= λ ls. inr (l ∷ ls))

-- `parseLocations`
unfoldable pub parse_locations : Target → FieldSet → Checked (List Location)
unfolding collect_blocks build_locations sort
parse_locations t f =
    collect_blocks f f.values [] >>= λ bs. build_locations t f (sort (λ a b. ltb a.0 b.0) bs)
