-- ===== src/Npm/Marker.antt =====
-- The ownership marker of internal/npm/marker.go: a comment line in front of a resource's
-- advanced configuration.
pub mod Escape
pub mod Parsing
pub mod RoundTrip
pub mod Lift
pub mod Ownership
use npmplus_docker_sync.Base.{
  ℕ, Bool, true, false, not, ◌&&◌, Option, none, some, List, [], ◌∷◌, ◌++◌, if◌then◌else◌, is_empty,
}
use npmplus_docker_sync.Base.Dict
use npmplus_docker_sync.Base.Dict.{Dict}
use npmplus_docker_sync.Base.Number.{ℤ, pos, itoa, atoi, equal_int}
use npmplus_docker_sync.Base.Text.{
  Text, text, ◌=?◌, trim_space, has_prefix, contains, cut, fields, split, join,
}
use npmplus_docker_sync.Npm.Marker.Escape.{query_escape, query_unescape}

abbrev pub marker_prefix : Text
marker_prefix = text "# npmplus-docker-sync:"

abbrev pub marker_notice : Text
marker_notice = text "managed from Docker labels, do not edit or remove this line"

abbrev pub marker_version : Text
marker_version = text "1"

-- `marker`; its fields Instance and Prefix are `instance_id` and `label_prefix`.
pub record Marker : Type 0 where
  pub key : Text
  pub container : Text
  pub container_id : Text
  pub index : ℤ
  pub instance_id : Text
  pub label_prefix : Text

abbrev pub pair : Text → Text → Text
pair name value = name ++ (b'=' ∷ value)

-- A pair that is left out for the empty value.
abbrev pub optional : Text → Text → List Text
optional name [] = []
optional name (c ∷ value) = pair name (query_escape (c ∷ value)) ∷ []

abbrev pub pairs : Marker → List Text
pairs m =
    pair (text "v") marker_version
    ∷ pair (text "key") (query_escape m.key)
    ∷ pair (text "container") (query_escape m.container)
    ∷ pair (text "index") (itoa m.index)
    ∷ (optional (text "container_id") m.container_id
        ++ (optional (text "instance") m.instance_id ++ optional (text "prefix") m.label_prefix))

-- `marker.encode`
unfoldable pub encode : Marker → Text
encode m = marker_prefix ++ (b' ' ∷ (marker_notice ++ (b' ' ∷ b'|' ∷ b' ' ∷ join (pairs m) b' ')))

-- The loop of `parseMarker` over the pairs.
unfoldable pub read_pairs : List Text → Dict Text → Option (Dict Text)
read_pairs [] values = some values
read_pairs (p ∷ ps) values = elim (cut p b'=') [
  | none ↦ none
  | some (name, raw) ↦ elim (query_unescape raw) [
    | none ↦ none
    | some value ↦ read_pairs ps (Dict.insert name value values)
  ]
]

-- `values[k]`, the empty text for a key that is missing.
unfoldable pub value_at : Text → Dict Text → Text
value_at k values = elim (Dict.lookup k values) [ none ↦ [] | some v ↦ v ]

with_index : Dict Text → Option ℤ → Option Marker
with_index values none = none
with_index values (some n) =
    if value_at (text "key") values =? []
    then none
    else some (record {
      key = value_at (text "key") values;
      container = value_at (text "container") values;
      container_id = value_at (text "container_id") values;
      index = n;
      instance_id = value_at (text "instance") values;
      label_prefix = value_at (text "prefix") values;
    })

unfoldable pub marker_of : Option (Dict Text) → Option Marker
unfolding with_index
marker_of none = none
marker_of (some values) =
    if value_at (text "v") values =? marker_version
    then with_index values (atoi (value_at (text "index") values))
    else none

-- `parseMarker` on a line with no blanks around it.
unfoldable pub parse_trimmed : Text → Option Marker
unfolding marker_of read_pairs
parse_trimmed line =
    if has_prefix line marker_prefix
    then elim (cut line b'|') [
      | none ↦ none
      | some (before, rest) ↦ marker_of (read_pairs (fields rest) [])
    ]
    else none

-- `parseMarker`; `none` is its `false`.
unfoldable pub parse_marker : Text → Option Marker
unfolding parse_trimmed
parse_marker line = parse_trimmed (trim_space line)

-- `isMarkerLine`
unfoldable pub is_marker_line : Text → Bool
is_marker_line line = has_prefix (trim_space line) marker_prefix

-- What the loop of `splitMarker` has gathered over the lines.
pub record Lines : Type 0 where
  pub kept : List Text
  pub markers : List Marker
  pub broken : Bool
  pub found : Bool

abbrev add_marker : Option Marker → Lines → Lines
add_marker none r = record r { broken = true; found = true }
add_marker (some m) r = record r { markers = m ∷ r.markers; found = true }

unfoldable pub read_lines : List Text → Lines
read_lines [] = record { kept = []; markers = []; broken = false; found = false }
read_lines (l ∷ ls) =
    let r = read_lines ls in
    if is_marker_line l then add_marker (parse_marker l) r else record r { kept = l ∷ r.kept }

-- `a == b` on markers.
unfoldable equal_marker : Marker → Marker → Bool
unfolding ◌=?◌ equal_int
equal_marker a b =
    a.key =? b.key
    && (a.container =? b.container
        && (a.container_id =? b.container_id
            && (equal_int a.index b.index
                && (a.instance_id =? b.instance_id && a.label_prefix =? b.label_prefix))))

unfoldable pub all_equal : Marker → List Marker → Bool
unfolding equal_marker
all_equal m [] = true
all_equal m (o ∷ os) = equal_marker o m && all_equal m os

-- The result of `splitMarker`: its `valid` is whether `trusted` is there.
pub record Split : Type 0 where
  pub user : Text
  pub trusted : Option Marker
  pub found : Bool

abbrev agreed : Bool → List Marker → Option Marker
agreed true ms = none
agreed false [] = none
agreed false (m ∷ ms) = if all_equal m ms then some m else none

abbrev pub collect : Lines → Split
collect r = record {
  user = join r.kept b'\n';
  trusted = agreed r.broken r.markers;
  found = r.found;
}

-- `splitMarker`
unfoldable pub split_marker : Text → Split
unfolding read_lines all_equal
split_marker config =
    if contains config marker_prefix
    then collect (read_lines (split config b'\n'))
    else record { user = config; trusted = none; found = false }

-- `withMarker`
unfoldable pub with_marker : Text → Marker → Text
unfolding encode
with_marker [] m = encode m
with_marker (c ∷ user) m = encode m ++ (b'\n' ∷ c ∷ user)
