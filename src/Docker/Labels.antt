-- ===== src/Docker/Labels.antt =====
-- The names of labels: the namespace, the kind, the index and the field that a name stands for, from
-- internal/docker/labels.go.
pub mod Words
pub mod Negative
pub mod Laws
use npmplus_docker_sync.Base.{
  ℕ, ◌==◌, Bool, true, false, not, ◌&&◌, ◌||◌, Option, none, some, List, [], ◌∷◌, ◌++◌, ◌⊎◌, inl,
  inr, if◌then◌else◌, is_empty, length,
}
use npmplus_docker_sync.Base.Dict.{Dict, lookup}
use npmplus_docker_sync.Base.Number.{ℤ, pos, negsuc, atoi}
use npmplus_docker_sync.Base.Text.{
  Text, text, ◌=?◌, to_lower, trim_space, cut_prefix, has_prefix, cut, split, join,
}
use npmplus_docker_sync.Fields.Index.{
  lookup_field, lookup_location, inverse_alias, suggest_field, suggest_location,
}
use npmplus_docker_sync.Fields.Names.{normalize}
use npmplus_docker_sync.Fields.Shared.Constants.{name_location}
use npmplus_docker_sync.Fields.Types.{Field}
use npmplus_docker_sync.Npm.Kind.{Kind, proxy, redirect, stream, dead}

-- `kindAliases`
abbrev pub kind_aliases : Dict Kind
kind_aliases =
    (text "proxy", proxy)
    ∷ (text "proxies", proxy)
    ∷ (text "redirect", redirect)
    ∷ (text "redirection", redirect)
    ∷ (text "stream", stream)
    ∷ (text "dead", dead)
    ∷ (text "404", dead)
    ∷ []

-- `DefaultPrefix`
abbrev default_prefix : Text
default_prefix = text "npm"

-- `strings.TrimRight(prefix, ".-")`
unfoldable trim_separators : Text → Text
trim_separators [] = []
trim_separators (c ∷ s) =
    let rest = trim_separators s in
    if is_empty rest && (c == b'.' || c == b'-') then [] else c ∷ rest

-- `normalizePrefix`
unfoldable pub normalize_prefix : Text → Text
unfolding trim_separators trim_space
normalize_prefix prefix =
    let trimmed = trim_separators (trim_space prefix) in
    if is_empty trimmed then default_prefix else trimmed

-- `name[len(prefix):]`
unfoldable drop_prefix : Text → Text → Text
drop_prefix name [] = name
drop_prefix [] (p ∷ ps) = []
drop_prefix (c ∷ name) (p ∷ ps) = drop_prefix name ps

behind_separator : Text → Option Text
behind_separator [] = none
behind_separator (c ∷ rest) = if c == b'.' || (c == b'-' || c == b'_') then some rest else none

-- `trimPrefix`
unfoldable pub trim_prefix : Text → Text → Option Text
unfolding has_prefix to_lower drop_prefix behind_separator
trim_prefix name prefix =
    if has_prefix (to_lower name) (to_lower prefix)
    then behind_separator (drop_prefix name prefix)
    else none

-- The errors of `splitLabel`
pub data NameError : Type 0 where
  negative_index missing_field : NameError

-- The results of `splitLabel` and the variable `indexSet`.
pub record LabelName : Type 0 where
  pub kind : Kind
  pub kind_set : Bool
  pub index : ℕ
  pub index_set : Bool

abbrev pub no_name : LabelName
no_name = record { kind = proxy; kind_set = false; index = 0; index_set = false }

abbrev pub unless : {A : Type 0} → Bool → Option A → Option A
unless true o = none
unless false o = o

-- What the loop of `splitLabel` ends with: the variables and the tokens that are left.
abbrev pub Read : Type 0
Read = NameError ⊎ LabelName × List Text

-- The conditions of the loop, with what follows where they hold and where they do not.
abbrev pub if_kind : Option Kind → (Kind → Read) → Read → Read
if_kind none found rest = rest
if_kind (some k) found rest = found k

abbrev pub if_index : Option ℤ → (ℕ → Read) → Read → Read
if_index none found rest = rest
if_index (some (pos n)) found rest = found n
if_index (some (negsuc n)) found rest = inl negative_index

-- The loop of `splitLabel`: what the tokens in front say, and those from the field on.
unfoldable pub read_tokens : LabelName → List Text → Read
unfolding lookup atoi
read_tokens p [] = inr (p, [])
read_tokens p (token ∷ tokens) =
    if_kind (unless p.kind_set (lookup token kind_aliases))
      (λ k. read_tokens (record p { kind = k; kind_set = true }) tokens)
      (if_index (unless p.index_set (atoi token))
        (λ n. read_tokens (record p { index = n; index_set = true }) tokens)
        (inr (p, token ∷ tokens)))

unfoldable pub with_field : NameError ⊎ LabelName × List Text → NameError ⊎ LabelName × Text
unfolding join
with_field (inl e) = inl e
with_field (inr (p, tokens)) =
    let field = join tokens b'.' in if is_empty field then inl missing_field else inr (p, field)

-- `splitLabel`
unfoldable pub split_label : Text → NameError ⊎ LabelName × Text
unfolding with_field read_tokens split normalize
split_label rest = with_field (read_tokens no_name (split (normalize rest) b'.'))

-- The canonical name that `resolveField` finds, and whether its value is negated.
pub record Resolved : Type 0 where
  pub canonical : Text
  pub inverted : Bool

-- `fields.Location + "."`
abbrev pub location_prefix : Text
location_prefix = name_location ++ (b'.' ∷ [])

unfoldable pub location_name : Text → Field → Text
unfolding normalize
location_name number f = location_prefix ++ (number ++ (b'.' ∷ normalize f.name))

location_inverse : Text → Option Text → Option Resolved
unfolding lookup_location
location_inverse number none = none
location_inverse number (some positive) = elim (lookup_location positive) [
  | none ↦ none
  | some f ↦ some (record { canonical = location_name number f; inverted = true })
]

location_resolved : Text → Text → Option Field → Option Resolved
unfolding location_inverse inverse_alias
location_resolved number sub (some f) =
    some (record { canonical = location_name number f; inverted = false })
location_resolved number sub none = location_inverse number (inverse_alias sub)

numbered : Option ℤ → Option (Text × Text) → Option (Text × Text)
numbered none block = none
numbered (some n) block = block

block_of : Option (Text × Text) → Option (Text × Text)
unfolding numbered atoi
block_of none = none
block_of (some (number, sub)) = numbered (atoi number) (some (number, sub))

-- The number and the field behind `location.`, where the number is one.
unfoldable location_block : Text → Option (Text × Text)
unfolding block_of cut
location_block rest = block_of (cut rest b'.')

resolved_block : Option (Text × Text) → Option Resolved
unfolding location_resolved lookup_location
resolved_block none = none
resolved_block (some (number, sub)) = location_resolved number sub (lookup_location sub)

-- `locationField`, on the text behind `location.`
unfoldable location_field : Text → Option Resolved
unfolding resolved_block location_block
location_field rest = resolved_block (location_block rest)

inverse_resolved : Kind → Option Text → Option Resolved
unfolding lookup_field normalize
inverse_resolved kind none = none
inverse_resolved kind (some positive) = elim (lookup_field kind positive) [
  | none ↦ none
  | some f ↦ some (record { canonical = normalize f.name; inverted = true })
]

resolved_other : Kind → Text → Option Text → Option Resolved
unfolding location_field inverse_resolved inverse_alias
resolved_other kind field (some rest) = location_field rest
resolved_other kind field none = inverse_resolved kind (inverse_alias field)

resolved_field : Kind → Text → Option Field → Option Resolved
unfolding resolved_other cut_prefix normalize
resolved_field kind field (some f) =
    some (record { canonical = normalize f.name; inverted = false })
resolved_field kind field none = resolved_other kind field (cut_prefix field location_prefix)

-- `resolveField`
unfoldable pub resolve_field : Kind → Text → Option Resolved
unfolding resolved_field lookup_field
resolve_field kind field = resolved_field kind field (lookup_field kind field)

-- `looksLikeLocationBlock`
unfoldable pub looks_like_location_block : Text → Bool
unfolding cut_prefix location_block
looks_like_location_block field = elim (cut_prefix field location_prefix) [
  | none ↦ elim (location_block field) [ none ↦ false | some b ↦ true ]
  | some rest ↦ elim (location_block rest) [ none ↦ false | some b ↦ true ]
]

location_hint : Option (Text × Text) → Text
unfolding suggest_location
location_hint none = []
location_hint (some (number, sub)) =
    let hint = suggest_location sub in
    if is_empty hint then [] else location_prefix ++ (text "<n>." ++ hint)

-- `suggest`
unfoldable pub suggest : Kind → Text → Text
unfolding cut_prefix location_hint location_block suggest_field
suggest kind field = elim (cut_prefix field location_prefix) [
  | none ↦ suggest_field kind field
  | some rest ↦ elim (location_block rest) [
    | none ↦ suggest_field kind field
    | some b ↦ location_hint (some b)
  ]
]
