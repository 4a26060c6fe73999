-- ===== src/Docker/Checked.antt =====
-- What the label parser returns: a value, or the error that stopped it. The messages of
-- internal/docker/labels.go and internal/docker/build.go are constructors with what they show.
pub mod Laws
use npmplus_docker_sync.Base.{ℕ, ◌⊎◌, inl, inr, ◌≡◌, refl}
use npmplus_docker_sync.Base.Number.{ℤ}
use npmplus_docker_sync.Base.Text.{Text}
use npmplus_docker_sync.Docker.Labels.{NameError}
use npmplus_docker_sync.Fields.Types.{ValueError}

-- `fmt.Errorf` in the label parser; the first text is the label or the source.
pub data LabelError : Type 0 where
  in_container : Text → LabelError → LabelError
  in_label : Text → LabelError → LabelError
  of_name : NameError → LabelError
  of_value : Text → ValueError → LabelError
  bad_value : ValueError → LabelError
  bad_domain : Text → Text → LabelError
  bad_certificate : Text → LabelError
  group_too_long : Text → ℕ → LabelError
  list_id_not_positive : Text → ℤ → LabelError
  list_required : Text → LabelError
  only_in_locations : Text → LabelError
  unknown_list_type : Text → Text → LabelError
  required : Text → LabelError
  moved_to_domains : Text → Text → LabelError
  not_a_slash : Text → Text → LabelError
  scheme_in_domain : Text → Text → LabelError
  not_redirect_code : Text → ℤ → LabelError
  no_transport : Text → Text → LabelError
  no_certificate_request : Text → LabelError
  over_tcp_only : Text → LabelError
  cannot_pick_port : Text → LabelError
  cannot_find_port : Text → LabelError
  not_attached : Text → LabelError
  cannot_find_host : Text → LabelError
  needs_certificate : Text → LabelError
  unknown_kind : Text → LabelError

abbrev pub Checked {ℓ} : Type ℓ → Type ℓ
Checked A = LabelError ⊎ A

infixl 5 ◌>>=◌
unfoldable pub ◌>>=◌ {ℓ κ} : {A : Type ℓ} {B : Type κ} → Checked A → (A → Checked B) → Checked B
inl e >>= f = inl e
inr a >>= f = f a

-- What stands in a chain that succeeds: its first step succeeds, and the rest on its value.
>>=-eq-inr {ℓ κ} :
    {A : Type ℓ} {B : Type κ} (m : Checked A) (f : A → Checked B) {b : B}
    → (m >>= f) ≡ inr b
    → (a : A) × (m ≡ inr a) × (f a ≡ inr b)
unfolding ◌>>=◌
>>=-eq-inr (inl e) f h = cc
>>=-eq-inr (inr a) f h = (a, refl, h)

abbrev pub in_source : {A : Type 0} → Text → ValueError ⊎ A → Checked A
in_source source (inl e) = inl (of_value source e)
in_source source (inr a) = inr a
