-- ===== src/Docker/Build/Upstream.antt =====
-- The upstream of a target: `resolvePort` and `resolveForwardHost` of internal/docker/build.go.
use npmplus_docker_sync.Base.{
  ℕ, zero, suc, ltb, Bool, not, ◌||◌, Option, none, some, [], inl, inr, if◌then◌else◌, is_empty,
}
use npmplus_docker_sync.Base.Number.{ℤ, pos, negsuc}
use npmplus_docker_sync.Base.Text.{Text}
use npmplus_docker_sync.Docker.Address.{
  Container, ParseOptions, running, resolve_host, guess_port, exposed_ports,
}
use npmplus_docker_sync.Docker.Checked.{
  Checked, ◌>>=◌, required, cannot_pick_port, cannot_find_port, not_attached, cannot_find_host,
}
use npmplus_docker_sync.Docker.FieldSet.{FieldSet, string, name_of, has, boolean, port}
use npmplus_docker_sync.Fields.Shared.Constants.{name_forward_host, name_resolve_ip}

unfoldable pub idle : Container → ParseOptions → Bool
unfolding running
idle c opts = not (running c) || opts.offline

-- What is returned where no port can be guessed.
unfoldable pub without_port : Container → ParseOptions → FieldSet → Text → ℕ → Checked ℕ
unfolding running exposed_ports name_of
without_port c opts f field fallback =
    if ltb 0 fallback
    then inr fallback
    else if idle c opts
    then inr 0
    else if is_empty (exposed_ports c)
    then inl (cannot_find_port (name_of f field))
    else inl (cannot_pick_port (name_of f field))

unfoldable pub guessed_port : Container → ParseOptions → FieldSet → Text → ℕ → Option ℕ → Checked ℕ
unfolding without_port
guessed_port c opts f field fallback (some p) = inr p
guessed_port c opts f field fallback none = without_port c opts f field fallback

-- `resolvePort` for the setting: 0 is unset, below 0 is "auto".
unfoldable pub port_of_setting : Container → ParseOptions → FieldSet → Text → ℕ → ℤ → Checked ℕ
unfolding guessed_port guess_port running name_of
port_of_setting c opts f field fallback (pos zero) =
    if ltb 0 fallback
    then inr fallback
    else if idle c opts
    then inr 0
    else inl (required (name_of f field))
port_of_setting c opts f field fallback (pos (suc n)) = inr (suc n)
port_of_setting c opts f field fallback (negsuc n) =
    guessed_port c opts f field fallback (guess_port c opts.port_preference)

-- `resolvePort`
unfoldable pub resolve_port : Container → ParseOptions → FieldSet → Text → ℕ → Checked ℕ
unfolding port_of_setting port
resolve_port c opts f field fallback = port f field >>= port_of_setting c opts f field fallback

module _ (parses_ip4 : Text → Bool) where
  unfoldable pub host_or : Container → ParseOptions → FieldSet → Text → Checked Text
  unfolding running name_of
  host_or c opts f host =
      if not (is_empty host)
      then inr host
      else if idle c opts
      then inr []
      else if opts.strict_networks
      then inl (not_attached (name_of f name_forward_host))
      else inl (cannot_find_host (name_of f name_forward_host))

  -- `resolveForwardHost`
  unfoldable pub resolve_forward_host : Container → ParseOptions → FieldSet → Checked Text
  unfolding host_or resolve_host string has boolean
  resolve_forward_host c opts f =
      let explicit = string f name_forward_host in
      let resolve_ip =
        if has f name_resolve_ip then boolean f name_resolve_ip else inr opts.resolve_ip in
      let host =
        resolve_ip >>= λ b. inr (resolve_host parses_ip4 c (record opts { resolve_ip = b })) in
      if not (is_empty explicit) then inr explicit else host >>= host_or c opts f
