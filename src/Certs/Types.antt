-- ===== src/Certs/Types.antt =====
-- The data of internal/certs/certs.go, and the certificate of internal/npm/models.go.
use npmplus_docker_sync.Base.{ℕ, Bool, false, Option, List, []}
use npmplus_docker_sync.Base.Text.{Text}

-- `Mode`
pub data Mode : Type 0 where
  auto_mode id_mode domain_mode name_mode new_mode none_mode : Mode

-- `Spec`
pub record Spec : Type 0 where
  pub mode : Mode
  pub id : ℕ
  pub domain : Text
  pub name : Text
  pub raw : Text

-- `Class`, best first; `unset` is the zero value.
pub data Class : Type 0 where
  unset exact_only exact_extra mixed wildcard no_match : Class

abbrev pub rank : Class → ℕ
rank unset = 0
rank exact_only = 1
rank exact_extra = 2
rank mixed = 3
rank wildcard = 4
rank no_match = 5

-- `Partial`
pub data Partial : Type 0 where
  primary partial_none : Partial

-- `npm.Certificate`
pub record Certificate : Type 0 where
  pub id : ℕ
  pub provider : Text
  pub nice_name : Text
  pub domain_names : List Text
  pub expires_on : Text
  pub is_deleted : Bool

-- `Selection`; the field New is `fresh`.
pub record Selection : Type 0 where
  pub id : ℕ
  pub fresh : Bool
  pub class : Class
  pub pattern_text : Text
  pub uncovered : List Text
  pub kept : Bool

abbrev pub no_selection : Selection
no_selection = record {
  id = 0;
  fresh = false;
  class = unset;
  pattern_text = [];
  uncovered = [];
  kept = false;
}

-- `Options`
pub record Options : Type 0 where
  pub current : ℕ
  pub policy : Partial
  pub now : ℕ

-- What the package takes from elsewhere: `idna.Lookup.ToASCII`, `none` being its error, and the
-- seconds that `time.Parse` reads under the first of the layouts that fits, `none` for none.
pub record Env : Type 0 where
  pub to_ascii : Text → Option Text
  pub parse_time : Text → Option ℕ
