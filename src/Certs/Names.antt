-- ===== src/Certs/Names.antt =====
-- Domain names against the names of a certificate: `canonical`, the wildcard of RFC 6125, the
-- class of a certificate, and the domains that it leaves out.
pub mod Wildcard
pub mod Coverage
use npmplus_docker_sync.Base.{
  ℕ, ◌+◌, ◌==◌, Bool, true, false, not, ◌&&◌, ◌||◌, Option, none, some, List, [], ◌∷◌, ◌++◌,
  if◌then◌else◌, ltb, length, any, is_empty,
}
use npmplus_docker_sync.Base.Text.{
  Text, text, ◌=?◌, to_lower, trim_space, trim_suffix, cut_prefix, cut,
}
use npmplus_docker_sync.Certs.Types.{
  Certificate, Class, exact_only, exact_extra, mixed, wildcard, no_match, Env,
}

-- `isASCII`
unfoldable is_ascii : Text → Bool
is_ascii [] = true
is_ascii (c ∷ s) = ltb c 0x80 && is_ascii s

module _ (env : Env) where
  ascii_of : Text → Text
  unfolding is_ascii
  ascii_of d = if is_ascii d then d else elim (env.to_ascii d) [ none ↦ d | some a ↦ a ]

  -- Behind the wildcard label, which is kept as it is.
  canonical_name : Text → Text
  unfolding ascii_of
  canonical_name d = elim (cut_prefix d (text "*.")) [
    | none ↦ ascii_of d
    | some rest ↦ text "*." ++ ascii_of rest
  ]

  -- `canonical`
  unfoldable pub canonical : Text → Text
  unfolding canonical_name
  canonical domain =
      let d = trim_suffix (to_lower (trim_space domain)) b'.' in
      if is_empty d then [] else canonical_name d

  -- `canonicalAll`
  unfoldable pub canonical_all : List Text → List Text
  canonical_all [] = []
  canonical_all (d ∷ ds) =
      let rest = canonical_all ds in if is_empty (canonical d) then rest else canonical d ∷ rest

-- `wildcardMatch`
unfoldable pub wildcard_match : Text → Text → Bool
wildcard_match pattern' domain = elim (cut_prefix pattern' (text "*.")) [
  | none ↦ false
  | some rest ↦ elim (cut domain b'.') [
    | none ↦ false
    | some (label, parent) ↦ not (is_empty rest) && (not (is_empty label) && parent =? rest)
  ]
]

-- `containsExact`
unfoldable pub contains_exact : List Text → Text → Bool
contains_exact cert_domains domain = any (λ cd. cd =? domain) cert_domains

-- `matchesWildcard`
unfoldable pub matches_wildcard : List Text → Text → Bool
unfolding wildcard_match
matches_wildcard cert_domains domain = any (λ cd. wildcard_match cd domain) cert_domains

module _ (env : Env) where
  -- The loop of `classify`: the exact matches and the wildcard matches, `none` where a domain
  -- matches neither way.
  unfoldable pub count_matches : List Text → List Text → ℕ → ℕ → Option (ℕ × ℕ)
  count_matches names [] exact wild = some (exact, wild)
  count_matches names (raw ∷ ds) exact wild =
      let d = canonical env raw in
      let skipped = count_matches names ds exact wild in
      let by_name = count_matches names ds (exact + 1) wild in
      let by_wildcard = count_matches names ds exact (wild + 1) in
      if is_empty d
      then skipped
      else if contains_exact names d
      then by_name
      else if matches_wildcard names d
      then by_wildcard
      else none

  -- The switch behind the loop.
  unfoldable pub class_of : ℕ → Option (ℕ × ℕ) → Class
  class_of names none = no_match
  class_of names (some (exact, wild)) =
      if wild == 0 && names == exact
      then exact_only
      else if wild == 0
      then exact_extra
      else if ltb 0 exact
      then mixed
      else wildcard

  -- `classify`
  unfoldable pub classify : Certificate → List Text → Class
  unfolding class_of
  classify c domains =
      let names = canonical_all env c.domain_names in
      if is_empty domains || is_empty names
      then no_match
      else class_of (length names) (count_matches names domains 0 0)

  -- A domain that the names cover, or that is no name at all.
  unfoldable pub is_covered : List Text → Text → Bool
  is_covered names raw =
      let d = canonical env raw in
      is_empty d || (contains_exact names d || matches_wildcard names d)

  -- The loop of `uncovered`.
  uncovered_loop : List Text → List Text → List Text
  unfolding is_covered
  uncovered_loop names [] = []
  uncovered_loop names (raw ∷ ds) =
      let rest = uncovered_loop names ds in if is_covered names raw then rest else raw ∷ rest

  -- `uncovered`
  unfoldable pub uncovered : Certificate → List Text → List Text
  unfolding uncovered_loop
  uncovered c domains = uncovered_loop (canonical_all env c.domain_names) domains

  pattern_loop : List Text → Text → Text
  pattern_loop [] d = []
  pattern_loop (raw ∷ names) d =
      let cd = canonical env raw in
      let rest = pattern_loop names d in if cd =? d || wildcard_match cd d then cd else rest

  -- `patternFor`
  unfoldable pub pattern_for : Certificate → List Text → Text
  unfolding pattern_loop
  pattern_for c [] = []
  pattern_for c (d ∷ ds) = pattern_loop c.domain_names (canonical env d)
