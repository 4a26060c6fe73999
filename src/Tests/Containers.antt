-- ===== src/Tests/Containers.antt =====
-- The address and the port of a container at concrete inputs (internal/docker/target.go).
use npmplus_docker_sync.Base.{ℕ, Bool, true, not, List, [], ◌∷◌, ◌≡◌, ◌⊎◌, refl, some, is_empty}
use npmplus_docker_sync.Base.Text.{Text, text}
use npmplus_docker_sync.Docker.Address.{Container, ip_address, guess_port}
use npmplus_docker_sync.Docker.Address.Laws.{ip_address_strict, OnNetwork}

-- Every text but the empty one stands for an address.
abbrev any_address : Text → Bool
any_address s = not (is_empty s)

abbrev proxied : Container
proxied = record {
  id = text "c1";
  name = text "app";
  labels = [];
  networks =
      record { name = text "lan"; ipv4 = text "10.0.0.9"; ipv6 = []; aliases = [] }
      ∷ record { name = text "npm"; ipv4 = text "172.18.0.2"; ipv6 = []; aliases = [] }
      ∷ [];
  ports =
      record { private_port = 53; public_port = 0; protocol = text "udp" }
      ∷ record { private_port = 9000; public_port = 0; protocol = text "tcp" }
      ∷ record { private_port = 8080; public_port = 80; protocol = text "tcp" }
      ∷ [];
  state = text "running";
}

ip_address_strict_example :
    (ip_address any_address proxied (text "npm" ∷ []) true ≡ [])
    ⊎ OnNetwork any_address proxied
        (text "npm" ∷ [])
        (ip_address any_address proxied (text "npm" ∷ []) true)
ip_address_strict_example = ip_address_strict any_address proxied (text "npm" ∷ [])

guessed : guess_port proxied [] ≡ some 8080
unfolding guess_port npmplus_docker_sync.Base.Text.◌=?◌
guessed = refl
