-- ===== src/Docker/Build/Hosts.antt =====
-- What the hosts share, and `buildDead` and `buildRedirect` of internal/docker/build.go.
use npmplus_docker_sync.Base.{
  ℕ, leb, ◌==◌, ◌&&◌, ◌||◌, List, inl, inr, if◌then◌else◌, any, is_empty,
}
use npmplus_docker_sync.Base.Number.{ℤ, pos, negsuc}
use npmplus_docker_sync.Base.Text.{Text, text, trim_space, to_lower, contains}
use npmplus_docker_sync.Docker.Build.Values.{missing_domains}
use npmplus_docker_sync.Docker.Checked.{
  Checked, ◌>>=◌, required, bad_domain, scheme_in_domain, not_redirect_code,
}
use npmplus_docker_sync.Docker.FieldSet.{
  FieldSet, string, source, name_of, boolean, integer, enum, domains,
}
use npmplus_docker_sync.Docker.Types.{Target}
use npmplus_docker_sync.Fields.Shared.Constants
use npmplus_docker_sync.Fields.Types.{auto}

-- The domains of a host, which needs one.
unfoldable pub required_domains : FieldSet → Checked (List Text)
unfolding domains missing_domains
required_domains f = domains f Constants.name_domains >>= λ ds.
    (if is_empty ds then inl (missing_domains f) else inr ds)

abbrev pub or_default : Text → Text → Text
or_default v default = if is_empty v then default else v

abbrev pub redirect_code : Text → ℤ → Checked ℕ
redirect_code src (pos n) =
    if leb 300 n && leb n 308 then inr n else inl (not_redirect_code src (pos n))
redirect_code src (negsuc n) = inl (not_redirect_code src (negsuc n))

-- The tests of the domain that a redirection leads to.
unfoldable redirect_domain : FieldSet → Checked Text
unfolding string name_of trim_space to_lower contains
redirect_domain f =
    let forward = to_lower (trim_space (string f Constants.name_forward_domain)) in
    let label = name_of f Constants.name_forward_domain in
    if is_empty forward
    then inl (required label)
    else if contains forward (text "://")
    then inl (scheme_in_domain label forward)
    else if any (λ c. c == b' ' || c == b'\t') forward
    then inl (bad_domain label forward)
    else inr forward

-- `buildRedirect`
unfoldable pub build_redirect : Target → FieldSet → Checked Target
unfolding required_domains redirect_domain enum integer source boolean
build_redirect t f = do
  names ← required_domains f
  forward ← redirect_domain f
  scheme ← enum f Constants.name_forward_scheme
  number ← integer f Constants.name_http_code
  code ← redirect_code (source f Constants.name_http_code) number
  preserve ← boolean f Constants.name_preserve_path
  exploits ← boolean f Constants.name_block_exploits
  inr (record t {
    domain_names = names;
    forward_domain_name = forward;
    forward_scheme = or_default scheme auto;
    forward_http_code = code;
    preserve_path = preserve;
    block_exploits = exploits;
  })

-- `buildDead`
unfoldable pub build_dead : Target → FieldSet → Checked Target
unfolding required_domains
build_dead t f = required_domains f >>= λ names. inr (record t { domain_names = names })
