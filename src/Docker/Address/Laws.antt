-- ===== src/Docker/Address/Laws.antt =====
-- What the chosen address and port belong to (internal/docker/target.go).
use mathlib.Core.Option.{some-injective}
use mathlib.Core.Path.{subst}
use npmplus_docker_sync.Base.{
  ℕ, ◌==◌, ==_iff, Bool, true, false, not, ◌||◌, Option, none, some, List, [], ◌∷◌, ◌≡◌, refl, sym,
  ap, ◌∙◌, ◌⊎◌, inl, inr, arith, if◌then◌else◌, is_empty, In, here, there,
}
use npmplus_docker_sync.Base.Dict
use npmplus_docker_sync.Base.Dict.{Dict}
use npmplus_docker_sync.Base.Text.{Text, ◌=?◌, =?_iff}
use npmplus_docker_sync.Docker.Address.{
  Network, Container, PortBinding, by_name, is_ipv4, address_or, first_address, ip_address, is_tcp,
  has, tcp_ports, preferred_port, choose_port, guess_port, default_port_preference,
}

by_name_step :
    (k : Text) (n : Network) (ns : List Network) (out : Dict Network)
    → Dict.lookup k (by_name ns out) ≡ some n
    → (In n ns × (n.name ≡ k)) ⊎ (Dict.lookup k out ≡ some n)
unfolding by_name
by_name_step k n [] out h = inr h
by_name_step k n (m ∷ ns) out h = elim (by_name_step k n ns (Dict.insert m.name m out) h) [
  | inl (i, e) ↦ inl (there i, e)
  | inr e ↦ elim (inserted e) [
    | inl (same, f) ↦ inl (here same, ap (λ v. v.name) (sym same) ∙ f)
    | inr f ↦ inr f
  ]
]
  where
    inserted :
        Dict.lookup k (Dict.insert m.name m out) ≡ some n
        → ((m ≡ n) × (m.name ≡ k)) ⊎ (Dict.lookup k out ≡ some n)
    inserted e = ground (arith, Dict.lookup-insert m.name k m out, =?_iff m.name k)

module _ (parses : Text → Bool) where
  -- The address is one of the container, on one of the named networks, and an IPv4 address.
  abbrev pub OnNetwork : Container → List Text → Text → Type 0
  OnNetwork c names address =
      (n : Network) × In n c.networks
      × In n.name names
      × (n.ipv4 ≡ address)
      × (is_ipv4 parses address ≡ true)

  address_or_cases :
      (o : Option Network) (rest : Text)
      → ((n : Network) × (o ≡ some n)
          × (n.ipv4 ≡ address_or parses o rest)
          × (is_ipv4 parses (address_or parses o rest) ≡ true))
        ⊎ (address_or parses o rest ≡ rest)
  address_or_cases none rest = inr refl
  address_or_cases (some n) rest = either (is_ipv4 parses n.ipv4) refl
    where
      either :
          (b : Bool)
          → is_ipv4 parses n.ipv4 ≡ b
          → ((m : Network) × (some n ≡ some m)
              × (m.ipv4 ≡ (if b then n.ipv4 else rest))
              × (is_ipv4 parses (if b then n.ipv4 else rest) ≡ true))
            ⊎ ((if b then n.ipv4 else rest) ≡ rest)
      either true e = inl (n, refl, refl, e)
      either false e = inr refl

  first_address-OnNetwork :
      (c : Container) (names : List Text)
      → let address = first_address parses names (by_name c.networks []) in
        (address ≡ []) ⊎ OnNetwork c names address
  unfolding first_address Dict.lookup
  first_address-OnNetwork c [] = inl refl
  first_address-OnNetwork c (name ∷ names) =
      let networks = by_name c.networks [] in
      let rest = first_address parses names networks in
      elim (address_or_cases (Dict.lookup name networks) rest) [
        | inl (n, found, e, valid) ↦ elim (by_name_step name n c.networks [] found) [
          | inl (i, named) ↦ inr (n, i, here (sym named), e, valid)
          | inr none_there ↦ absurd (cc)
        ]
        | inr e ↦ elim (first_address-OnNetwork c names) [
          | inl empty ↦ inl (e ∙ empty)
          | inr (n, i, m, f, valid) ↦ inr (n, i, there m, f ∙ sym e, ap (is_ipv4 parses) e ∙ valid)
        ]
      ]

  -- In strict mode the address is empty, or the IPv4 address of a network of the container that is
  -- among the preferred ones: never one that the server does not share.
  pub ip_address_strict :
      (c : Container) (preferred : List Text)
      → (ip_address parses c preferred true ≡ [])
        ⊎ OnNetwork c preferred (ip_address parses c preferred true)
  unfolding ip_address
  ip_address_strict c preferred =
      let found = first_address parses preferred (by_name c.networks []) in
      choose (found =? []) refl (first_address-OnNetwork c preferred)
    where
      choose :
          (b : Bool)
          → (first_address parses preferred (by_name c.networks []) =? []) ≡ b
          → (first_address parses preferred (by_name c.networks []) ≡ [])
            ⊎ OnNetwork c preferred (first_address parses preferred (by_name c.networks []))
          → ((if not b then first_address parses preferred (by_name c.networks []) else []) ≡ [])
            ⊎ OnNetwork c preferred
                (if not b then first_address parses preferred (by_name c.networks []) else [])
      choose true e o = inl refl
      choose false e o = o

-- The port is a TCP port that the container exposes.
abbrev Exposes : List PortBinding → ℕ → Type 0
Exposes ports p = (b : PortBinding) × In b ports × (is_tcp b ≡ true) × (b.private_port ≡ p)

has-In : (p : ℕ) (ps : List ℕ) → has p ps ≡ true → In p ps
has-In p [] h = absurd (cc)
has-In p (q ∷ ps) h = either (q == p) refl h (has-In p ps)
  where
    either :
        (b : Bool)
        → (q == p) ≡ b
        → (b || has p ps) ≡ true
        → (has p ps ≡ true → In p ps)
        → In p (q ∷ ps)
    either true e g f = here ((==_iff q p).0 e)
    either false e g f = there (f g)

tcp_ports_step :
    (q : PortBinding) (ps : List PortBinding) (p : ℕ) (rest taken : List ℕ) (b c : Bool)
    → is_tcp q ≡ b
    → (In p rest → Exposes ps p)
    → (In p taken → Exposes ps p)
    → In p (if not b then rest else if c then rest else (q.private_port ∷ taken))
    → Exposes (q ∷ ps) p
tcp_ports_step q ps p rest taken false c e f g i = let (b, m, t, h) = f i in (b, there m, t, h)
tcp_ports_step q ps p rest taken true true e f g i = let (b, m, t, h) = f i in (b, there m, t, h)
tcp_ports_step q ps p rest taken true false e f g (here h) = (q, here refl, e, h)
tcp_ports_step q ps p rest taken true false e f g (there i) =
    let (b, m, t, h) = g i in (b, there m, t, h)

tcp_ports-Exposes :
    (seen : List ℕ) (ps : List PortBinding) (p : ℕ) → In p (tcp_ports seen ps) → Exposes ps p
unfolding tcp_ports
tcp_ports-Exposes seen [] p i = elim i [ ]
tcp_ports-Exposes seen (q ∷ ps) p i =
    tcp_ports_step q ps p (tcp_ports seen ps) (tcp_ports (q.private_port ∷ seen) ps) (is_tcp q)
      (has q.private_port seen) refl (tcp_ports-Exposes seen ps p)
      (tcp_ports-Exposes (q.private_port ∷ seen) ps p) i

preferred_step :
    (want p : ℕ) (wants ports : List ℕ) (b : Bool)
    → has want ports ≡ b
    → (if b then some want else preferred_port wants ports) ≡ some p
    → (preferred_port wants ports ≡ some p → In p ports)
    → In p ports
preferred_step want p wants ports true e h f =
    subst (λ q. In q ports) (some-injective _ _ h) (has-In want ports e)
preferred_step want p wants ports false e h f = f h

preferred_port-In :
    (wants ports : List ℕ) (p : ℕ) → preferred_port wants ports ≡ some p → In p ports
unfolding preferred_port
preferred_port-In [] ports p h = absurd (cc)
preferred_port-In (want ∷ wants) ports p h =
    preferred_step want p wants ports (has want ports) refl h (preferred_port-In wants ports p)

choose_port-In :
    (preference ports : List ℕ) (p : ℕ) → choose_port preference ports ≡ some p → In p ports
unfolding choose_port
choose_port-In preference [] p h = absurd (cc)
choose_port-In preference (q ∷ []) p h = here (some-injective _ _ h)
choose_port-In preference (q ∷ r ∷ ports) p h =
    preferred_port-In (if is_empty preference then default_port_preference else preference)
      (q ∷ r ∷ ports) p h

-- A port that is guessed is a positive TCP port that the container exposes, whatever the list of
-- preferences holds.
pub guess_port-Exposes :
    (c : Container) (preference : List ℕ) (p : ℕ)
    → guess_port c preference ≡ some p
    → Exposes c.ports p
unfolding guess_port
guess_port-Exposes c preference p h =
    tcp_ports-Exposes [] c.ports p (choose_port-In preference (tcp_ports [] c.ports) p h)
