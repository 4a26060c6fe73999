-- ===== src/Npm/Dialect/Ownership.antt =====
-- With no schema to go by, every server is taken to keep the ownership in one place or the other.
use npmplus_docker_sync.Base.{Bool, true, ◌||◌, none, ◌≡◌, refl, if◌then◌else◌}
use npmplus_docker_sync.Base.Text.{text, ◌=?◌, has_prefix}
use npmplus_docker_sync.Npm.Dialect.{
  Dialect, Flavour, auto, npmplus, npm, Version, is_npm, schema_of, assumes, assumes_npm,
  assumes_plus, accepts, advanced_field, keeps_ownership,
}
use npmplus_docker_sync.Npm.Kind.{Kind, proxy, redirect, stream, dead, other, equal_kind}

assumed :
    (f : Flavour) (v : Version) (retired : Bool) (k : Kind)
    → ((if is_npm f
          then assumes_npm v k (advanced_field k)
          else assumes_plus retired k (advanced_field k))
        || (if is_npm f
            then assumes_npm v k (text "meta")
            else assumes_plus retired k (text "meta")))
      ≡ true
unfolding assumes_npm assumes_plus advanced_field equal_kind ◌=?◌ has_prefix
assumed npm v retired proxy = refl
assumed npm v retired redirect = refl
assumed npm v retired stream = refl
assumed npm v retired dead = refl
assumed npm v retired (other k) = refl
assumed npmplus v retired proxy = refl
assumed npmplus v retired redirect = refl
assumed npmplus v retired stream = refl
assumed npmplus v retired dead = refl
assumed npmplus v retired (other k) = refl
assumed auto v retired proxy = refl
assumed auto v retired redirect = refl
assumed auto v retired stream = refl
assumed auto v retired dead = refl
assumed auto v retired (other k) = refl

-- A server that serves no schema for a kind is written to in a way that keeps the ownership of
-- its resources, in the marker or in the meta object.
keeps_ownership_assumed :
    (d : Dialect) (k : Kind) → schema_of k d.schema ≡ none → keeps_ownership d k ≡ true
unfolding keeps_ownership assumes
keeps_ownership_assumed d k h = rw (h, accepts) (assumed d.flavour d.version d.meta_retired k)
