-- ===== src/Npm/Types.antt =====
-- The shared data of internal/npm/models.go.
use npmplus_docker_sync.Base.{ℕ, ◌==◌, Bool, true, false, not, ◌&&◌, Option, List}
use npmplus_docker_sync.Base.Text.{Text}

-- `Location`; its decoding-only field AccessLists is left out, since no resource keeps it.
pub record Location : Type 0 where
  pub path : Text
  pub location_type : Text
  pub advanced_config : Text
  pub location_config : Text
  pub forward_scheme : Text
  pub forward_host : Text
  pub forward_port : ℕ
  pub access_list_ids : List ℕ
  pub access_list_type : Text
  pub access_list_names : List Text
  pub enabled : Option Bool
  pub no_index : Bool
  pub disable_crowdsec_appsec : Bool
  pub disable_request_buffering : Bool
  pub disable_response_buffering : Bool
  pub upstream_compression : Bool
  pub fancy_index : Bool
  pub x_frame_options : Text
  pub auth_request : Text
  pub auth_request_upstream : Text

-- `AccessList`
pub record AccessList : Type 0 where
  pub id : ℕ
  pub name : Text

-- `CertificateID`; the field New is `fresh`.
pub record CertificateId : Type 0 where
  pub id : ℕ
  pub fresh : Bool

-- `NewCertificate`
abbrev pub new_certificate : CertificateId
new_certificate = record { id = 0; fresh = true }

-- `CertificateRef`
abbrev pub certificate_ref : ℕ → CertificateId
certificate_ref id = record { id = id; fresh = false }

-- `CertificateID.IsZero`
unfoldable is_zero : CertificateId → Bool
is_zero c = not c.fresh && c.id == 0
