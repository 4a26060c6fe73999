-- ===== src/Fields/Types.antt =====
-- A field and the values it accepts: `Field`, `ValidateEnum`, `Parse` and `ParseBool` of
-- internal/fields.
pub mod Laws
use npmplus_docker_sync.Base.{
  Bool, true, false, not, ◌&&◌, ◌||◌, List, [], ◌∷◌, Option, none, some, if◌then◌else◌, any, ◌⊎◌,
  inl, inr, leb, ℕ,
}
use npmplus_docker_sync.Base.Number.{ℤ, pos, negsuc, atoi}
use npmplus_docker_sync.Base.Text.{Text, text, ◌=?◌, to_lower, trim_space, equal_fold}

-- `Type`
pub data ValueType : Type 0 where
  string_type bool_type int_type port_type enum_type : ValueType
  domains_type list_type certificate_type : ValueType

-- `Field`; its Doc, which only the documentation shows, is left out.
pub record Field : Type 0 where
  pub name : Text
  pub aliases : List Text
  pub value_type : ValueType
  pub enum : List Text
  pub default : Text
  pub api_field : Text
  pub plus : Bool
  pub invert : Bool

-- The errors of the value parsers, with what their messages show.
pub data ValueError : Type 0 where
  not_boolean : Text → ValueError
  not_number : Text → ValueError
  out_of_range : ℤ → ValueError
  not_one_of : Text → List Text → ValueError

-- `Auto`
abbrev pub auto : Text
auto = text "auto"

abbrev true_words : List Text
true_words =
    text "1"
    ∷ text "t"
    ∷ text "true"
    ∷ text "y"
    ∷ text "yes"
    ∷ text "on"
    ∷ text "enable"
    ∷ text "enabled"
    ∷ []

abbrev false_words : List Text
false_words =
    text "0"
    ∷ text "f"
    ∷ text "false"
    ∷ text "n"
    ∷ text "no"
    ∷ text "off"
    ∷ text "disable"
    ∷ text "disabled"
    ∷ []

abbrev is_one_of : Text → List Text → Bool
is_one_of v = any (λ w. v =? w)

-- `ParseBool`
unfoldable pub parse_bool : Text → ValueError ⊎ Bool
unfolding to_lower trim_space ◌=?◌
parse_bool raw =
    let v = to_lower (trim_space raw) in
    if is_one_of v true_words
    then inr true
    else if is_one_of v false_words
    then inr false
    else inl (not_boolean raw)

-- The loop of `ValidateEnum`
unfoldable pub find_value : Text → List Text → Option Text
find_value v [] = none
find_value v (allowed ∷ more) = if v =? allowed then some allowed else find_value v more

abbrev found_or : ValueError → Option Text → ValueError ⊎ Text
found_or e none = inl e
found_or e (some v) = inr v

-- `Field.ValidateEnum`, for the values of the enum.
unfoldable pub validate_enum : List Text → Text → ValueError ⊎ Text
unfolding find_value to_lower trim_space
validate_enum enum value =
    found_or (not_one_of value enum) (find_value (to_lower (trim_space value)) enum)

-- `strconv.FormatBool`
abbrev pub format_bool : Bool → Text
format_bool true = text "true"
format_bool false = text "false"

-- `n < 1 || n > 65535`, the other way round.
unfoldable pub is_port : ℤ → Bool
is_port (pos n) = leb 1 n && leb n 65535
is_port (negsuc n) = false

abbrev pub format_parsed : ValueError ⊎ Bool → ValueError ⊎ Text
format_parsed (inl e) = inl e
format_parsed (inr b) = inr (format_bool b)

abbrev pub parsed_int : Text → Option ℤ → ValueError ⊎ Text
parsed_int raw none = inl (not_number raw)
parsed_int raw (some n) = inr raw

abbrev pub parsed_port : Text → Option ℤ → ValueError ⊎ Text
parsed_port raw none = inl (not_number raw)
parsed_port raw (some n) = if is_port n then inr raw else inl (out_of_range n)

-- `Field.Parse` of a trimmed value, by the type of the field.
unfoldable pub parse_as : ValueType → Field → Text → ValueError ⊎ Text
unfolding equal_fold ◌=?◌ parse_bool atoi is_port validate_enum
parse_as bool_type f raw =
    if equal_fold raw auto && (f.default =? auto) then inr auto else format_parsed (parse_bool raw)
parse_as int_type f raw = parsed_int raw (atoi raw)
parse_as port_type f raw = if equal_fold raw auto then inr auto else parsed_port raw (atoi raw)
parse_as enum_type f raw = validate_enum f.enum raw
parse_as _ f raw = inr raw

-- `Field.Parse`
unfoldable pub parse : Field → Text → ValueError ⊎ Text
unfolding parse_as trim_space
parse f raw = parse_as f.value_type f (trim_space raw)
