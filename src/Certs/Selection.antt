-- ===== src/Certs/Selection.antt =====
-- The choice of a certificate in internal/certs/certs.go: `best` and `Resolve`.
pub mod Best
pub mod Optimal
pub mod Resolution
pub mod Stability
use npmplus_docker_sync.Base.{
  ℕ, ◌==◌, Bool, true, false, not, ◌&&◌, ◌||◌, Option, none, some, List, [], ◌∷◌, if◌then◌else◌,
  ltb, leb, is_empty,
}
use npmplus_docker_sync.Base.Sort.{sort}
use npmplus_docker_sync.Base.Text.{Text, text, equal_fold, trim_space}
use npmplus_docker_sync.Certs.Names.{classify, uncovered, pattern_for}
use npmplus_docker_sync.Certs.Types.{
  Spec, Mode, auto_mode, id_mode, domain_mode, name_mode, new_mode, none_mode, Class, rank,
  no_match, Partial, primary, partial_none, Certificate, Selection, no_selection, Options, Env,
}

-- `byID`
unfoldable pub by_id : List Certificate → List Certificate
by_id = sort (λ a b. ltb a.id b.id)

-- `certByID`; the zero certificate where the list has no such id.
unfoldable pub cert_by_id : List Certificate → ℕ → Certificate
cert_by_id [] id = record {
  id = 0;
  provider = [];
  nice_name = [];
  domain_names = [];
  expires_on = [];
  is_deleted = false;
}
cert_by_id (c ∷ cs) id = if c.id == id then c else cert_by_id cs id

-- `Time.After` and `Time.Equal` on the result of `expiry`; the zero time is before all others.
abbrev pub after : Option ℕ → Option ℕ → Bool
after none b = false
after (some x) none = true
after (some x) (some y) = ltb y x

abbrev same_time : Option ℕ → Option ℕ → Bool
same_time none none = true
same_time (some x) (some y) = x == y
same_time _ _ = false

-- `candidate`
pub record Candidate : Type 0 where
  pub cert : Certificate
  pub class : Class

-- By class, then by the remaining validity, the longest first, then by id.
unfoldable pub better_by : ℕ → ℕ → Option ℕ → Option ℕ → ℕ → ℕ → Bool
better_by class_a class_b expiry_a expiry_b id_a id_b =
    if not (class_a == class_b)
    then ltb class_a class_b
    else if not (same_time expiry_a expiry_b)
    then after expiry_a expiry_b
    else ltb id_a id_b

module _ (env : Env) where
  -- `expiry`; `none` is the zero time of an unknown expiry.
  unfoldable pub expiry : Certificate → Option ℕ
  expiry c = let raw = trim_space c.expires_on in if is_empty raw then none else env.parse_time raw

  -- The test of the expiry in `usable`.
  abbrev pub expired : Option ℕ → ℕ → Bool
  expired none now = false
  expired (some t) now = leb t now

  -- `usable`
  unfoldable pub usable : Certificate → ℕ → Bool
  usable c now =
      if c.id == 0 || c.is_deleted
      then false
      else if equal_fold (trim_space c.provider) (text "mtls")
      then false
      else not (expired (expiry c) now)

  -- The order of the candidates in `best`.
  unfoldable pub better : Candidate → Candidate → Bool
  unfolding better_by
  better a b =
      better_by (rank a.class) (rank b.class) (expiry a.cert) (expiry b.cert) a.cert.id b.cert.id

  abbrev pub is_match : Class → Bool
  is_match no_match = false
  is_match _ = true

  -- The loop of `best` that gathers the candidates.
  unfoldable pub candidates : List Text → ℕ → List Certificate → List Candidate
  candidates domains now [] = []
  candidates domains now (c ∷ cs) =
      let rest = candidates domains now cs in
      let class = classify env c domains in
      if usable c now && is_match class then record { cert = c; class = class } ∷ rest else rest

  -- The certificate that is attached already, among the candidates.
  unfoldable pub attached : ℕ → List Candidate → Option Candidate
  attached current [] = none
  attached current (c ∷ cs) = if c.cert.id == current then some c else attached current cs

  abbrev pub selected : List Text → Bool → Candidate → Selection
  selected domains kept c = record no_selection {
    id = c.cert.id;
    class = c.class;
    pattern_text = pattern_for env c.cert domains;
    kept = kept;
  }

  -- The end of `best`: a certificate that is attached stays, unless the winner's class is better.
  unfoldable pub keep_or_win : List Text → Candidate → Option Candidate → Selection
  keep_or_win domains winner none = selected domains false winner
  keep_or_win domains winner (some c) =
      if leb (rank c.class) (rank winner.class)
      then selected domains true c
      else selected domains false winner

  unfoldable pub pick : List Text → ℕ → List Candidate → Option Selection
  unfolding keep_or_win
  pick domains current [] = none
  pick domains current (winner ∷ more) = some (
      keep_or_win domains winner (if ltb 0 current then attached current (winner ∷ more) else none))

  -- `best`
  unfoldable pub best : List Text → List Certificate → Options → Option Selection
  unfolding pick
  best domains list opts =
      pick domains opts.current (sort better (candidates domains opts.now (by_id list)))

  -- The loop of `Resolve` over the names, for `name:<nice name>`.
  unfoldable pub named : Text → List Text → List Certificate → Option Selection
  named name domains [] = none
  named name domains (c ∷ cs) =
      if equal_fold (trim_space c.nice_name) name
      then some (record no_selection {
        id = c.id;
        pattern_text = c.nice_name;
        class = classify env c domains;
      })
      else named name domains cs

  -- A selection with the domains that its certificate leaves uncovered.
  abbrev pub with_uncovered : List Certificate → List Text → Selection → Selection
  with_uncovered list domains sel = record sel {
    uncovered = uncovered env (cert_by_id list sel.id) domains;
  }

  abbrev pub nothing_covers : List Text → Selection
  nothing_covers domains = record no_selection { uncovered = domains }

  by_primary : List Text → List Certificate → Options → Selection
  by_primary [] list opts = no_selection
  by_primary (d ∷ ds) list opts = elim (best (d ∷ []) list opts) [
    | none ↦ nothing_covers (d ∷ ds)
    | some sel ↦ with_uncovered list (d ∷ ds) sel
  ]

  partial_match : Partial → List Text → List Certificate → Options → Selection
  unfolding by_primary
  partial_match partial_none domains list opts = nothing_covers domains
  partial_match primary domains list opts = by_primary domains list opts

  -- The automatic selection of `Resolve`.
  unfoldable pub resolve_auto : List Text → List Certificate → Options → Selection
  unfolding partial_match
  resolve_auto domains list opts =
      if is_empty domains then no_selection else elim (best domains list opts) [
        | some sel ↦ sel
        | none ↦ partial_match opts.policy domains list opts
      ]

  -- `Resolve`; `none` is its error.
  unfoldable pub resolve : Spec → List Text → List Certificate → Options → Option Selection
  unfolding resolve_auto named
  resolve spec domains list opts = elim spec.mode [
    | none_mode ↦ some no_selection
    | new_mode ↦ some (record no_selection { fresh = true })
    | id_mode ↦
        some (record no_selection { id = spec.id; class = no_match; pattern_text = text "id" })
    | name_mode ↦ named spec.name domains (by_id list)
    | domain_mode ↦ elim (best (spec.domain ∷ []) list opts) [
      | none ↦ none
      | some sel ↦ some (with_uncovered list domains sel)
    ]
    | auto_mode ↦ some (resolve_auto domains list opts)
  ]
