-- ===== src/Certs/Parsing.antt =====
-- The settings of the certificate selection as texts, and the fingerprint of a certificate list:
-- `ParseSpec`, `ParsePartial` and `Hash` of internal/certs/certs.go.
pub mod Laws
use npmplus_docker_sync.Base.{
  ℕ, zero, suc, Bool, true, false, not, ◌&&◌, ◌||◌, Option, none, some, List, [], ◌∷◌, ◌++◌,
  if◌then◌else◌, any, map,
}
use npmplus_docker_sync.Base.Number.{ℤ, pos, negsuc, itoa, atoi}
use npmplus_docker_sync.Base.Text.{
  Text, text, ◌=?◌, to_lower, trim_space, cut_prefix, contains_byte, join,
}
use npmplus_docker_sync.Certs.Names.{canonical_all}
use npmplus_docker_sync.Certs.Selection.{by_id}
use npmplus_docker_sync.Certs.Types.{
  Spec, Mode, auto_mode, id_mode, domain_mode, name_mode, new_mode, none_mode, Partial, primary,
  partial_none, Certificate, Env,
}

abbrev pub one_of : Text → List Text → Bool
one_of s = any (λ w. s =? w)

abbrev pub auto_words : List Text
auto_words = [] ∷ text "auto" ∷ []

abbrev pub new_words : List Text
new_words = text "new" ∷ text "letsencrypt" ∷ text "le" ∷ text "request" ∷ []

abbrev pub none_words : List Text
none_words =
    text "none"
    ∷ text "off"
    ∷ text "false"
    ∷ text "no"
    ∷ text "0"
    ∷ text "disable"
    ∷ text "disabled"
    ∷ []

-- A spec of the mode with nothing else set.
abbrev pub plain_spec : Mode → Text → Spec
plain_spec mode raw = record { mode = mode; id = 0; domain = []; name = []; raw = raw }

drop : ℕ → Text → Text
drop zero s = s
drop (suc n) [] = []
drop (suc n) (c ∷ s) = drop n s

-- `cutPrefixFold` for the prefix `name:`, which is lower case: the text that is left.
unfoldable pub cut_name : Text → Option Text
unfolding drop
cut_name s = elim (cut_prefix (to_lower s) (text "name:")) [
  | none ↦ none
  | some rest ↦ some (drop 5 s)
]

-- `looksLikeDomain`
unfoldable pub looks_like_domain : Text → Bool
looks_like_domain s =
    not (
      contains_byte s b' '
      || (contains_byte s b'/' || (contains_byte s b'\\' || contains_byte s b':')))
    && contains_byte s b'.'

abbrev named_spec : Text → Text → Option Spec
named_spec raw name =
    if name =? [] then none else some (record (plain_spec name_mode raw) { name = name })

abbrev domain_spec : Text → Text → Option Spec
domain_spec raw lower =
    if looks_like_domain lower
    then some (record (plain_spec domain_mode raw) { domain = lower })
    else none

abbrev pub id_spec : Text → Text → Option ℤ → Option Spec
id_spec raw lower none = domain_spec raw lower
id_spec raw lower (some (negsuc n)) = none
id_spec raw lower (some (pos zero)) = some (plain_spec none_mode raw)
id_spec raw lower (some (pos (suc n))) = some (record (plain_spec id_mode raw) { id = suc n })

abbrev pub name_or_id : Text → Text → Option Text → Option Spec
name_or_id raw lower none = id_spec raw lower (atoi raw)
name_or_id raw lower (some rest) = named_spec raw (trim_space rest)

-- `ParseSpec`; `none` is its error.
unfoldable pub parse_spec : Text → Option Spec
unfolding cut_name looks_like_domain
parse_spec raw =
    let trimmed = trim_space raw in
    let lower = to_lower trimmed in
    let other = name_or_id trimmed lower (cut_name trimmed) in
    if one_of lower auto_words
    then some (plain_spec auto_mode trimmed)
    else if one_of lower new_words
    then some (plain_spec new_mode trimmed)
    else if one_of lower none_words
    then some (plain_spec none_mode trimmed)
    else other

-- `ParsePartial`; `none` is its error.
unfoldable parse_partial : Text → Option Partial
parse_partial raw =
    let lower = to_lower (trim_space raw) in
    if one_of lower ([] ∷ text "primary" ∷ text "first" ∷ [])
    then some primary
    else if one_of lower (text "none" ∷ text "off" ∷ text "skip" ∷ [])
    then some partial_none
    else none

abbrev truth : Bool → Text
truth true = text "true"
truth false = text "false"

abbrev part : Env → Certificate → Text
part env c =
    join
      (itoa (pos c.id)
        ∷ join (canonical_all env c.domain_names) b','
        ∷ trim_space c.expires_on
        ∷ truth c.is_deleted
        ∷ c.provider
        ∷ [])
      b':'

-- `Hash`
unfoldable pub hash : Env → List Certificate → Text
unfolding by_id canonical_all itoa
hash env list = join (map (part env) (by_id list)) b'|'
