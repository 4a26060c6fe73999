-- ===== src/Npm/Kind.antt =====
-- The resource kinds of internal/npm/resources.go.
use npmplus_docker_sync.Base.{Bool, true, false, not, List, [], ◌∷◌, ◌≡◌, ◌↔◌, refl, ap}
use npmplus_docker_sync.Base.Text.{Text, text, ◌=?◌, =?_iff, =?_refl}

-- `Kind` is a string. Every value but the four constants is `other`.
pub data Kind : Type 0 where
  proxy redirect stream dead : Kind
  other : Text → Kind

-- `Kinds`, the canonical processing order.
abbrev pub kinds : List Kind
kinds = proxy ∷ redirect ∷ stream ∷ dead ∷ []

-- `Kind.Path`
unfoldable pub path : Kind → Text
path proxy = text "/api/nginx/proxy-hosts"
path redirect = text "/api/nginx/redirection-hosts"
path stream = text "/api/nginx/streams"
path dead = text "/api/nginx/dead-hosts"
path (other k) = []

-- `Kind.String`
unfoldable pub to_text : Kind → Text
to_text proxy = text "proxy"
to_text redirect = text "redirect"
to_text stream = text "stream"
to_text dead = text "dead"
to_text (other k) = k

-- `Kind.Valid`
unfoldable is_valid : Kind → Bool
unfolding path ◌=?◌
is_valid k = not (path k =? [])

-- `a == b`
unfoldable pub equal_kind : Kind → Kind → Bool
equal_kind proxy proxy = true
equal_kind redirect redirect = true
equal_kind stream stream = true
equal_kind dead dead = true
equal_kind (other a) (other b) = a =? b
equal_kind _ _ = false

equal_kind_refl : (k : Kind) → equal_kind k k ≡ true
unfolding equal_kind
equal_kind_refl proxy = refl
equal_kind_refl redirect = refl
equal_kind_refl stream = refl
equal_kind_refl dead = refl
equal_kind_refl (other a) = =?_refl a

equal_kind_sound : (a b : Kind) → equal_kind a b ≡ true → a ≡ b
unfolding equal_kind
equal_kind_sound (other a) (other b) h = ap other ((=?_iff a b).0 h)
equal_kind_sound proxy proxy h = refl
equal_kind_sound redirect redirect h = refl
equal_kind_sound stream stream h = refl
equal_kind_sound dead dead h = refl
equal_kind_sound _ _ h = cc

pub equal_kind_iff : (a b : Kind) → (equal_kind a b ≡ true) ↔ (a ≡ b)
equal_kind_iff a b = (equal_kind_sound a b, λ e. rw e (equal_kind_refl b))
