-- ===== src/Certs/Names/Coverage.antt =====
-- The class of a certificate against the domains that it leaves uncovered.
use npmplus_docker_sync.Base.{
  ℕ, ◌+◌, Bool, true, false, not, Option, none, some, List, [], ◌∷◌, ◌≡◌, ◌≢◌, ◌↔◌, refl, arith,
  is_empty, ◌∙◌,
}
use npmplus_docker_sync.Base.Text.{Text}
use npmplus_docker_sync.Certs.Names.{
  canonical_all, count_matches, class_of, classify, is_covered, uncovered_loop, uncovered,
}
use npmplus_docker_sync.Certs.Types.{Certificate, Class, no_match, Env}

abbrev is_none : Option (ℕ × ℕ) → Bool
is_none none = true
is_none (some p) = false

abbrev is_no_match : Class → Bool
is_no_match no_match = true
is_no_match _ = false

module _ (env : Env) where
  count_matches-uncovered :
      (names ds : List Text) (exact wild : ℕ)
      → is_none (count_matches env names ds exact wild)
        ≡ not (is_empty (uncovered_loop env names ds))
  unfolding count_matches uncovered_loop is_covered
  count_matches-uncovered names [] exact wild = refl
  count_matches-uncovered names (raw ∷ ds) exact wild = ground (
    arith,
    count_matches-uncovered names ds exact wild,
    count_matches-uncovered names ds (exact + 1) wild,
    count_matches-uncovered names ds exact (wild + 1),
  )

  class_of-no_match : (n : ℕ) (o : Option (ℕ × ℕ)) → is_no_match (class_of env n o) ≡ is_none o
  unfolding class_of
  class_of-no_match n none = refl
  class_of-no_match n (some (exact, wild)) = ground arith

  is_no_match-classify :
      (c : Certificate) (ds : List Text)
      → is_empty ds ≡ false
      → is_empty (canonical_all env c.domain_names) ≡ false
      → is_no_match (classify env c ds) ≡ not (is_empty (uncovered env c ds))
  unfolding classify uncovered
  is_no_match-classify c ds h k =
      rw (h, k)
        (class_of-no_match _ (count_matches env (canonical_all env c.domain_names) ds 0 0)
          ∙ count_matches-uncovered (canonical_all env c.domain_names) ds 0 0)

  -- For a host with domains and a certificate with names, the certificate has a class exactly
  -- when `uncovered` finds no domain that it leaves out.
  pub classify-uncovered_iff :
      (c : Certificate) (ds : List Text)
      → is_empty ds ≡ false
      → is_empty (canonical_all env c.domain_names) ≡ false
      → (classify env c ds ≢ no_match) ↔ (uncovered env c ds ≡ [])
  classify-uncovered_iff c ds h k = (
    matched (classify env c ds) (uncovered env c ds) (is_no_match-classify c ds h k),
    covered (classify env c ds) (uncovered env c ds) (is_no_match-classify c ds h k),
  )
    where
      matched :
          (x : Class) (u : List Text) → is_no_match x ≡ not (is_empty u) → x ≢ no_match → u ≡ []
      matched x [] e n = refl
      matched no_match (d ∷ u) e n = absurd (n refl)
      matched _ (d ∷ u) e n = cc

      covered :
          (x : Class) (u : List Text) → is_no_match x ≡ not (is_empty u) → u ≡ [] → x ≢ no_match
      covered x [] e q n = ground arith
      covered x (d ∷ u) e q n = cc
