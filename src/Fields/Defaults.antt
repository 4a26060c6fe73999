-- ===== src/Fields/Defaults.antt =====
-- The defaults of the fields from the environment: internal/fields/defaults.go.
pub mod Names
mod Stored
mod Keys
mod Loop
pub mod Laws
use npmplus_docker_sync.Base.{
  ℕ, ◌-◌, ◌==◌, leb, Bool, true, false, not, ◌&&◌, Option, none, some, List, [], ◌∷◌, ◌++◌, ◌⊎◌,
  inl, inr, if◌then◌else◌, any, is_empty, keep,
}
use npmplus_docker_sync.Base.Dict.{Dict, insert, lookup}
use npmplus_docker_sync.Base.Sort.{sort, sort_texts}
use npmplus_docker_sync.Base.Text.{Text, text, ◌=?◌, ◌<?◌, trim_space, has_prefix, cut}
use npmplus_docker_sync.Fields.Index.{lookup_field}
use npmplus_docker_sync.Fields.Names.{normalize}
use npmplus_docker_sync.Fields.Tables.{table}
use npmplus_docker_sync.Fields.Types.{Field, ValueError, parse}
use npmplus_docker_sync.Npm.Kind.{Kind, dead, kinds, to_text}

abbrev upper_byte : ℕ → ℕ
upper_byte c = if leb b'a' c && leb c b'z' then c - 32 else c

-- `strings.ToUpper`
unfoldable to_upper : Text → Text
to_upper [] = []
to_upper (c ∷ s) = upper_byte c ∷ to_upper s

-- `strings.ReplaceAll(s, ".", "_")`
unfoldable dots_to_lines : Text → Text
dots_to_lines [] = []
dots_to_lines (c ∷ s) = (if c == b'.' then b'_' else c) ∷ dots_to_lines s

abbrev env_prefix : Text
env_prefix = text "NPM_"

abbrev env_default_prefix : Text
env_default_prefix = text "NPM_DEFAULT_"

-- `envKind`
unfoldable env_kind : Kind → Text
unfolding to_upper to_text
env_kind dead = text "DEAD"
env_kind kind = to_upper (to_text kind)

-- `envName`
unfoldable env_name : Text → Text → Text
unfolding to_upper dots_to_lines normalize
env_name prefix field = prefix ++ to_upper (dots_to_lines (normalize field))

unfoldable pub kind_prefix : Kind → Text
unfolding env_kind
kind_prefix kind = env_prefix ++ (env_kind kind ++ (b'_' ∷ []))

abbrev pub member : Text → List Text → Bool
member x = any (λ y. y =? x)

-- `add`, the closure of `EnvNames`
abbrev add_name : List Text → Text → List Text
add_name out name = if member name out then out else out ++ (name ∷ [])

abbrev add_names : Text → List Text → List Text → List Text
add_names prefix [] out = out
add_names prefix (f ∷ fs) out = add_names prefix fs (add_name out (env_name prefix f))

-- `EnvNames`
unfoldable pub env_names : Kind → Field → List Text
unfolding env_name env_kind ◌=?◌
env_names kind f =
    let spelled = f.name ∷ f.aliases in
    add_names env_default_prefix spelled (add_names (kind_prefix kind) spelled [])

-- `Defaults`
pub record Defaults : Type 0 where
  pub values : Dict Text
  pub source : Dict Text

-- `key`
unfoldable pub key : Kind → Text → Text
unfolding to_text normalize
key kind field = to_text kind ++ (b'|' ∷ normalize field)

abbrev pub builtin : Text
builtin = text "builtin"

-- The error of one variable, with its name.
pub record EnvError : Type 0 where
  pub variable : Text
  pub problem : ValueError

-- The variables of `LoadDefaults`: the defaults, `errs` and `known`.
pub record Loading : Type 0 where
  pub loaded : Defaults
  pub errs : List EnvError
  pub known : List Text

-- The loop over the names of a field: the value and the source of the first variable that is set.
unfoldable pub choose_variable : (Text → Text) → List Text → Text → Text × Text
unfolding trim_space
choose_variable getenv [] default = (default, builtin)
choose_variable getenv (name ∷ names) default =
    let raw = trim_space (getenv name) in
    let rest = choose_variable getenv names default in if is_empty raw then rest else (raw, name)

abbrev store : Kind → Field → Text → Text → Loading → Loading
store kind f value source l = record l {
  loaded = record {
    values = insert (key kind f.name) value l.loaded.values;
    source = insert (key kind f.name) source l.loaded.source;
  };
}

abbrev fail : Text → ValueError → Loading → Loading
fail source e l = record l { errs = l.errs ++ (record { variable = source; problem = e } ∷ []) }

abbrev store_parsed : Kind → Field → Text → ValueError ⊎ Text → Loading → Loading
store_parsed kind f source (inl e) l = fail source e l
store_parsed kind f source (inr value) l = store kind f value source l

abbrev load_chosen : Kind → Field → Text × Text → Loading → Loading
load_chosen kind f (value, source) l =
    if source =? builtin
    then store kind f value source l
    else store_parsed kind f source (parse f value) l

abbrev pub with_known : List Text → Loading → Loading
with_known names l = record l { known = l.known ++ names }

-- The body of the inner loop of `LoadDefaults`.
unfoldable pub load_field : (Text → Text) → Kind → Field → Loading → Loading
unfolding choose_variable env_names insert key ◌=?◌ parse
load_field getenv kind f l =
    let names = env_names kind f in
    load_chosen kind f (choose_variable getenv names f.default) (with_known names l)

unfoldable pub load_fields : (Text → Text) → Kind → List Field → Loading → Loading
unfolding load_field
load_fields getenv kind [] l = l
load_fields getenv kind (f ∷ fs) l = load_fields getenv kind fs (load_field getenv kind f l)

unfoldable pub load_kinds : (Text → Text) → List Kind → Loading → Loading
unfolding load_fields
load_kinds getenv [] l = l
load_kinds getenv (k ∷ ks) l = load_kinds getenv ks (load_fields getenv k (table k) l)

abbrev nothing_loaded : Loading
nothing_loaded = record { loaded = record { values = []; source = [] }; errs = []; known = [] }

abbrev env_prefixes : List Kind → List Text
env_prefixes [] = []
env_prefixes (k ∷ ks) = kind_prefix k ∷ env_prefixes ks

unfoldable pub has_any_prefix : Text → List Text → Bool
unfolding has_prefix
has_any_prefix name = any (has_prefix name)

abbrev is_unknown : List Text → Text → Bool
is_unknown known name =
    not (member name known) && has_any_prefix name (env_default_prefix ∷ env_prefixes kinds)

unfoldable pub entry_names : List Text → List Text
unfolding cut
entry_names [] = []
entry_names (entry ∷ more) =
    let rest = entry_names more in elim (cut entry b'=') [ none ↦ rest | some p ↦ p.0 ∷ rest ]

-- `unknownEnv`
unfoldable unknown_env : List Text → List Text → List Text
unfolding sort_texts has_prefix cut ◌=?◌ env_kind
unknown_env environ known = sort_texts (keep (is_unknown known) (entry_names environ))

-- `LoadDefaults`: the defaults, the warnings and the errors.
unfoldable pub load_defaults : (Text → Text) → List Text → Defaults × List Text × List EnvError
unfolding load_kinds unknown_env
load_defaults getenv environ =
    let l = load_kinds getenv kinds nothing_loaded in
    (l.loaded, unknown_env environ l.known, l.errs)

default_of : Option Field → Text
default_of none = []
default_of (some f) = f.default

text_or : Text → Option Text → Text
text_or default none = default
text_or default (some v) = v

looked_up : Text → (Defaults → Dict Text) → Option Defaults → Option Text
unfolding lookup
looked_up k m none = none
looked_up k m (some d) = lookup k (m d)

-- `Defaults.Value`; the receiver may be nil.
unfoldable pub value : Option Defaults → Kind → Text → Text
unfolding looked_up text_or default_of lookup_field key
value d kind field =
    text_or (default_of (lookup_field kind field)) (looked_up (key kind field) (λ d. d.values) d)

-- `Defaults.Source`
unfoldable pub source_of : Option Defaults → Kind → Text → Text
unfolding looked_up text_or key
source_of d kind field = text_or builtin (looked_up (key kind field) (λ d. d.source) d)

-- `Entry`
pub record Entry : Type 0 where
  pub kind : Kind
  pub field : Text
  pub effective : Text
  pub origin : Text

-- `List`
unfoldable list_fields : Kind → List Field
unfolding sort ◌<?◌
list_fields kind = sort (λ a b. a.name <? b.name) (table kind)

abbrev entries_of : Option Defaults → Kind → List Field → List Entry
entries_of d kind [] = []
entries_of d kind (f ∷ fs) =
    record {
      kind = kind;
      field = f.name;
      effective = value d kind f.name;
      origin = source_of d kind f.name;
    }
    ∷ entries_of d kind fs

abbrev entries_of_kinds : Option Defaults → List Kind → List Entry
entries_of_kinds d [] = []
entries_of_kinds d (k ∷ ks) = entries_of d k (list_fields k) ++ entries_of_kinds d ks

-- `Defaults.Entries`
unfoldable pub entries : Option Defaults → List Entry
unfolding value source_of list_fields
entries d = entries_of_kinds d kinds

-- `Defaults.FromEnv`
unfoldable from_env : Option Defaults → List Entry
unfolding entries ◌=?◌
from_env d = keep (λ e. not (e.origin =? builtin)) (entries d)
