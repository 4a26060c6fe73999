-- ===== src/Docker/Address.antt =====
-- The address and the port of a container: the methods of `Container` in
-- internal/docker/target.go.
pub mod Laws
use npmplus_docker_sync.Base.{
  ℕ, ltb, ◌==◌, Bool, true, false, not, ◌&&◌, ◌||◌, Option, none, some, List, [], ◌∷◌,
  if◌then◌else◌, any, is_empty, map,
}
use npmplus_docker_sync.Base.Dict
use npmplus_docker_sync.Base.Dict.{Dict}
use npmplus_docker_sync.Base.Sort.{sort, sort_texts}
use npmplus_docker_sync.Base.Text.{Text, text, ◌=?◌, to_lower}
use npmplus_docker_sync.Fields.Defaults.{Defaults}

-- `Network`
pub record Network : Type 0 where
  pub name : Text
  pub ipv4 : Text
  pub ipv6 : Text
  pub aliases : List Text

-- `PortBinding`; its field Type is `protocol`.
pub record PortBinding : Type 0 where
  pub private_port : ℕ
  pub public_port : ℕ
  pub protocol : Text

-- `Container`
pub record Container : Type 0 where
  pub id : Text
  pub name : Text
  pub labels : Dict Text
  pub networks : List Network
  pub ports : List PortBinding
  pub state : Text

-- `ParseOptions`; Defaults may be nil.
pub record ParseOptions : Type 0 where
  pub prefix : Text
  pub resolve_ip : Bool
  pub prefer_networks : List Text
  pub strict_networks : Bool
  pub defaults : Option Defaults
  pub exposed_by_default : Bool
  pub strict_labels : Bool
  pub port_preference : List ℕ
  pub self_id : Text
  pub offline : Bool

-- `Container.Running`
unfoldable pub running : Container → Bool
unfolding to_lower
running c =
    let state = to_lower c.state in
    state =? text "running"
    || (state =? text "restarting" || (state =? text "paused" || state =? []))

-- The map by name of `IPAddress`, from what the loop has so far: the last network of a name.
unfoldable pub by_name : List Network → Dict Network → Dict Network
by_name [] out = out
by_name (n ∷ ns) out = by_name ns (Dict.insert n.name n out)

-- `Container.OnAnyNetwork`
unfoldable on_any_network : Container → List Text → Bool
on_any_network c names = is_empty names || any (λ n. any (λ want. n.name =? want) names) c.networks

-- `parses_ip4` is whether `net.ParseIP` reads the text as an address that `To4` accepts.
module _ (parses_ip4 : Text → Bool) where
  -- `isIPv4`
  abbrev pub is_ipv4 : Text → Bool
  is_ipv4 raw = not (raw =? []) && parses_ip4 raw

  abbrev pub address_or : Option Network → Text → Text
  address_or none rest = rest
  address_or (some n) rest = if is_ipv4 n.ipv4 then n.ipv4 else rest

  -- The loops of `IPAddress`: the first of the names with an IPv4 address.
  unfoldable pub first_address : List Text → Dict Network → Text
  first_address [] networks = []
  first_address (name ∷ names) networks =
      address_or (Dict.lookup name networks) (first_address names networks)

  -- `Container.IPAddress`. An address that `isIPv4` accepts is not empty.
  unfoldable pub ip_address : Container → List Text → Bool → Text
  unfolding first_address by_name sort_texts Dict.keys
  ip_address c preferred strict =
      let networks = by_name c.networks [] in
      let found = first_address preferred networks in
      let fallback = first_address (sort_texts (Dict.keys networks)) networks in
      if not (found =? []) then found else if strict then [] else fallback

  -- `Container.ResolveHost`
  unfoldable pub resolve_host : Container → ParseOptions → Text
  unfolding ip_address on_any_network
  resolve_host c opts =
      let ip = ip_address c opts.prefer_networks opts.strict_networks in
      if not opts.resolve_ip
      then (if opts.strict_networks && not (on_any_network c opts.prefer_networks)
          then []
          else c.name)
      else if not (ip =? [])
      then ip
      else if opts.strict_networks
      then []
      else c.name

abbrev pub is_tcp : PortBinding → Bool
is_tcp p = ltb 0 p.private_port && (p.protocol =? [] || p.protocol =? text "tcp")

abbrev pub has : ℕ → List ℕ → Bool
has p = any (λ q. q == p)

-- The loop of `GuessPort`: the TCP ports, each once, in their order.
unfoldable pub tcp_ports : List ℕ → List PortBinding → List ℕ
tcp_ports seen [] = []
tcp_ports seen (p ∷ ps) =
    let rest = tcp_ports seen ps in
    let taken = p.private_port ∷ tcp_ports (p.private_port ∷ seen) ps in
    if not (is_tcp p) then rest else if has p.private_port seen then rest else taken

-- `DefaultPortPreference`
abbrev pub default_port_preference : List ℕ
default_port_preference = 80 ∷ 8080 ∷ 3000 ∷ 8000 ∷ 443 ∷ []

unfoldable pub preferred_port : List ℕ → List ℕ → Option ℕ
preferred_port [] ports = none
preferred_port (want ∷ wants) ports =
    if has want ports then some want else preferred_port wants ports

unfoldable pub choose_port : List ℕ → List ℕ → Option ℕ
unfolding preferred_port
choose_port preference [] = none
choose_port preference (p ∷ []) = some p
choose_port preference (p ∷ q ∷ ports) =
    preferred_port (if is_empty preference then default_port_preference else preference)
      (p ∷ q ∷ ports)

-- `Container.GuessPort`; `none` is its `false`.
unfoldable pub guess_port : Container → List ℕ → Option ℕ
unfolding choose_port tcp_ports
guess_port c preference = choose_port preference (tcp_ports [] c.ports)

-- The loop of `ExposedPorts`: the private ports of every protocol, each once.
unfoldable private_ports : List ℕ → List PortBinding → List ℕ
private_ports seen [] = []
private_ports seen (p ∷ ps) =
    let rest = private_ports seen ps in
    let taken = p.private_port ∷ private_ports (p.private_port ∷ seen) ps in
    if not (ltb 0 p.private_port) then rest else if has p.private_port seen then rest else taken

-- `Container.ExposedPorts`
unfoldable pub exposed_ports : Container → List ℕ
unfolding private_ports sort
exposed_ports c = sort ltb (private_ports [] c.ports)

-- `Container.PublishedPort`, on the ports.
unfoldable published_port : ℕ → List PortBinding → Option ℕ
published_port private_port [] = none
published_port private_port (p ∷ ps) =
    if p.private_port == private_port && ltb 0 p.public_port
    then some p.public_port
    else published_port private_port ps

-- `DedupeNetworks`, from what the loop has seen.
unfoldable dedupe_networks : List Text → List Text → List Text
dedupe_networks seen [] = []
dedupe_networks seen (name ∷ names) =
    let rest = dedupe_networks seen names in
    let taken = name ∷ dedupe_networks (name ∷ seen) names in
    if name =? [] then rest else if any (λ s. s =? name) seen then rest else taken

-- `Container.NetworkNames`
unfoldable network_names : Container → List Text
unfolding sort_texts
network_names c = sort_texts (map (λ n. n.name) c.networks)
