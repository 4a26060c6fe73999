-- ===== src/Docker/FieldSet.antt =====
-- The labels of one resource and what its fields hold: `fieldSet` of internal/docker/labels.go.
use npmplus_docker_sync.Base.{
  ℕ, ◌==◌, Bool, false, not, ◌&&◌, ◌||◌, Option, none, some, List, [], ◌∷◌, ◌++◌, inl, inr,
  if◌then◌else◌, is_empty, any,
}
use npmplus_docker_sync.Base.Dict.{Dict, lookup, has_key}
use npmplus_docker_sync.Base.Number.{ℤ, pos, negsuc, atoi, itoa}
use npmplus_docker_sync.Base.Text.{Text, ◌=?◌, trim_space, equal_fold, fields_func, split}
use npmplus_docker_sync.Docker.Checked.{of_value, bad_domain, Checked, ◌>>=◌, in_source}
use npmplus_docker_sync.Fields.Defaults.{Defaults, value, source_of, builtin}
use npmplus_docker_sync.Fields.Index.{lookup_field}
use npmplus_docker_sync.Fields.Names.{normalize}
use npmplus_docker_sync.Fields.Types.{
  Field, not_number, out_of_range, auto, parse_bool, validate_enum, is_port,
}
use npmplus_docker_sync.Npm.Domains.{normalize_domains}
use npmplus_docker_sync.Npm.Kind.{Kind, to_text}

-- `fieldSet`
pub record FieldSet : Type 0 where
  pub prefix : Text
  pub kind : Kind
  pub index : ℕ
  pub values : Dict Text
  pub labels : Dict Text
  pub defaults : Option Defaults
  pub tainted : Bool

-- `newFieldSet`
abbrev pub new_field_set : Text → Kind → ℕ → Option Defaults → FieldSet
new_field_set prefix kind index defaults = record {
  prefix = prefix;
  kind = kind;
  index = index;
  values = [];
  labels = [];
  defaults = defaults;
  tainted = false;
}

name_or : Text → Option Text → Text
name_or built none = built
name_or built (some label) = label

built_name : FieldSet → Text → Text
unfolding to_text itoa
built_name f field =
    let rest = (if f.index == 0 then field else itoa (pos f.index) ++ (b'.' ∷ field)) in
    f.prefix ++ (b'.' ∷ to_text f.kind ++ (b'.' ∷ rest))

-- `fieldSet.name`
unfoldable pub name_of : FieldSet → Text → Text
unfolding name_or built_name lookup normalize
name_of f field = name_or (built_name f field) (lookup (normalize field) f.labels)

-- `fieldSet.source`
unfoldable pub source : FieldSet → Text → Text
unfolding name_of has_key source_of normalize ◌=?◌
source f field =
    let default = source_of f.defaults f.kind field in
    if has_key (normalize field) f.values
    then name_of f field
    else if default =? builtin
    then name_of f field
    else default

abbrev pub text_of : Option Text → Text
text_of none = []
text_of (some v) = v

-- `fieldSet.raw`; a key that is missing reads as the empty text.
unfoldable pub raw : FieldSet → Text → Text
unfolding lookup normalize
raw f field = text_of (lookup (normalize field) f.values)

-- `fieldSet.has`
unfoldable pub has : FieldSet → Text → Bool
unfolding raw
has f field = not (is_empty (raw f field))

-- `fieldSet.string`
unfoldable pub string : FieldSet → Text → Text
unfolding raw value
string f field = if is_empty (raw f field) then value f.defaults f.kind field else raw f field

-- `fieldSet.boolean`
unfoldable pub boolean : FieldSet → Text → Checked Bool
unfolding string source parse_bool
boolean f field =
    let v = string f field in
    if is_empty v then inr false else in_source (source f field) (parse_bool v)

abbrev set_bool : Checked Bool → Checked (Option Bool)
set_bool r = r >>= λ b. inr (some b)

-- `fieldSet.booleanAuto`
unfoldable pub boolean_auto : FieldSet → Text → Checked (Option Bool)
unfolding string source parse_bool trim_space equal_fold
boolean_auto f field =
    let v = trim_space (string f field) in
    if is_empty v || equal_fold v auto
    then inr none
    else set_bool (in_source (source f field) (parse_bool v))

abbrev pub number_or : Text → Text → Option ℤ → Checked ℤ
number_or source v none = inl (of_value source (not_number v))
number_or source v (some n) = inr n

-- `fieldSet.integer`
unfoldable pub integer : FieldSet → Text → Checked ℤ
unfolding string source atoi
integer f field =
    let v = string f field in
    if is_empty v then inr (pos 0) else number_or (source f field) v (atoi v)

unfoldable pub in_range : Text → ℤ → Checked ℤ
unfolding is_port
in_range source n = if is_port n then inr n else inl (of_value source (out_of_range n))

-- `fieldSet.port`: 0 when unset, -1 when it is "auto".
unfoldable pub port : FieldSet → Text → Checked ℤ
unfolding string source atoi trim_space equal_fold is_port
port f field =
    let v = trim_space (string f field) in
    if is_empty v
    then inr (pos 0)
    else if equal_fold v auto
    then inr (negsuc 0)
    else number_or (source f field) v (atoi v) >>= in_range (source f field)

enum_value : Text → Text → Option Field → Checked Text
unfolding validate_enum
enum_value source v none = inr v
enum_value source v (some d) = in_source source (validate_enum d.enum v)

-- `fieldSet.enum`
unfoldable pub enum : FieldSet → Text → Checked Text
unfolding enum_value string source trim_space lookup_field
enum f field =
    let v = trim_space (string f field) in
    if is_empty v then inr [] else enum_value (source f field) v (lookup_field f.kind field)

abbrev pub one_of : List ℕ → ℕ → Bool
one_of bytes c = any (λ b. c == b) bytes

-- `strings.ContainsAny(domain, " /\\:")`, where the backslash is the byte 92.
abbrev forbidden : List ℕ
forbidden = b' ' ∷ b'/' ∷ 92 ∷ b':' ∷ []

-- `validDomain`, true where it returns no error.
unfoldable pub valid_domain : Text → Bool
unfolding split
valid_domain domain =
    not (is_empty domain)
    && (not (any (one_of forbidden) domain) && not (any is_empty (split domain b'.')))

-- The separators of `splitList`
abbrev list_separator : ℕ → Bool
list_separator = one_of (b',' ∷ b' ' ∷ b'\t' ∷ b'\n' ∷ b';' ∷ [])

-- `splitList`
unfoldable pub split_list : Text → List Text
unfolding fields_func
split_list v = fields_func list_separator v

unfoldable pub valid_domains : Text → List Text → Checked (List Text)
unfolding valid_domain
valid_domains source [] = inr []
valid_domains source (d ∷ ds) =
    let rest = valid_domains source ds in
    if valid_domain d then rest >>= (λ r. inr (d ∷ r)) else inl (bad_domain source d)

-- `fieldSet.domains`
unfoldable pub domains : FieldSet → Text → Checked (List Text)
unfolding valid_domains split_list string source normalize_domains
domains f field = valid_domains (source f field) (normalize_domains (split_list (string f field)))
