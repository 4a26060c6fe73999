-- ===== src/Certs/Selection/Best.antt =====
-- What `best` returns is a usable certificate of the list that covers every domain, and it
-- returns one whenever there is one.
use mathlib.Core.Option.{some-injective, some-ne-none}
use mathlib.Core.Path.{subst}
use npmplus_docker_sync.Base.{
  ℕ, ◌==◌, Bool, true, false, ◌&&◌, Option, none, some, List, [], ◌∷◌, ◌≡◌, refl, arith,
  if◌then◌else◌, ltb, leb, All, In, here, there, inl, inr, leb→le, ◌≤◌, All-map, ◌⊎◌,
}
use npmplus_docker_sync.Base.Sort.Laws.{All-sort, In-sort}
use npmplus_docker_sync.Base.Sort.{sort}
use npmplus_docker_sync.Base.Text.{Text}
use npmplus_docker_sync.Certs.Names.{classify}
use npmplus_docker_sync.Certs.Selection.{
  by_id, Candidate, usable, better, is_match, candidates, attached, selected, keep_or_win, pick,
}
use npmplus_docker_sync.Certs.Types.{rank, Certificate, Selection, Options, Env}

module _ (env : Env) where
  -- A certificate that may be chosen: it is usable now and covers the domains.
  abbrev pub fits : List Text → ℕ → Certificate → Bool
  fits domains now c = usable env c now && is_match env (classify env c domains)

  -- A candidate that `best` may gather from the list.
  pub record IsCandidate (domains : List Text) (now : ℕ) (list : List Certificate) (x : Candidate)
      : Type 0 where
    pub listed : In x.cert list
    pub class_is : x.class ≡ classify env x.cert domains
    pub fitting : fits domains now x.cert ≡ true

  module _ (domains : List Text) (now : ℕ) where
    candidates_step :
        (c : Certificate) (cs : List Certificate) (rest : List Candidate) (b : Bool)
        → fits domains now c ≡ b
        → All (IsCandidate domains now cs) rest
        → All
            (IsCandidate domains now (c ∷ cs))
            (if b then record { cert = c; class = classify env c domains } ∷ rest else rest)
    candidates_step c cs rest b e h = go b e
      where
        later : All (IsCandidate domains now (c ∷ cs)) rest
        later =
            All-map (IsCandidate domains now cs)
              (λ x k. record {
                listed = there k.listed;
                class_is = k.class_is;
                fitting = k.fitting;
              })
              rest h

        go :
            (b : Bool)
            → fits domains now c ≡ b
            → All
                (IsCandidate domains now (c ∷ cs))
                (if b then record { cert = c; class = classify env c domains } ∷ rest else rest)
        go true e = (record { listed = here refl; class_is = refl; fitting = e }, later)
        go false e = later

    pub candidates-IsCandidate :
        (cs : List Certificate) → All (IsCandidate domains now cs) (candidates env domains now cs)
    unfolding candidates
    candidates-IsCandidate [] = tt
    candidates-IsCandidate (c ∷ cs) =
        candidates_step c cs (candidates env domains now cs) (fits domains now c) refl
          (candidates-IsCandidate cs)

    -- Every certificate that fits is among the candidates.
    gathered_step :
        (a c : Certificate) (rest : List Candidate) (b : Bool)
        → fits domains now c ≡ b
        → fits domains now a ≡ true
        → (c ≡ a) ⊎ In (record { cert = a; class = classify env a domains }) rest
        → In
            (record { cert = a; class = classify env a domains })
            (if b then record { cert = c; class = classify env c domains } ∷ rest else rest)
    gathered_step a c rest true e f (inl q) = here (rw q)
    gathered_step a c rest false e f (inl q) = cc
    gathered_step a c rest true e f (inr m) = there m
    gathered_step a c rest false e f (inr m) = m

    pub candidates_complete :
        (a : Certificate) (cs : List Certificate)
        → In a cs
        → fits domains now a ≡ true
        → In (record { cert = a; class = classify env a domains }) (candidates env domains now cs)
    unfolding candidates
    candidates_complete a [] m f = elim m [ ]
    candidates_complete a (c ∷ cs) (here e) f =
        gathered_step a c (candidates env domains now cs) (fits domains now c) refl f (inl e)
    candidates_complete a (c ∷ cs) (there m) f =
        gathered_step a c (candidates env domains now cs) (fits domains now c) refl f
          (inr (candidates_complete a cs m f))

  -- The candidates of `best`, best first.
  abbrev pub ranked : List Text → List Certificate → Options → List Candidate
  ranked domains list opts = sort (better env) (candidates env domains opts.now (by_id list))

  pub ranked-IsCandidate :
      (domains : List Text) (list : List Certificate) (opts : Options)
      → All (IsCandidate domains opts.now list) (ranked domains list opts)
  unfolding by_id
  ranked-IsCandidate domains list opts =
      All-sort (better env) _ (candidates env domains opts.now (by_id list)) (
        All-map (IsCandidate domains opts.now (by_id list))
          (λ x k. record {
            listed = In-sort _ list k.listed;
            class_is = k.class_is;
            fitting = k.fitting;
          })
          (candidates env domains opts.now (by_id list))
          (candidates-IsCandidate domains opts.now (by_id list)))

  attached_step :
      (current : ℕ) (x : Candidate) (cs : List Candidate) {c : Candidate} (b : Bool)
      → (if b then some x else attached env current cs) ≡ some c
      → (attached env current cs ≡ some c → In c cs)
      → In c (x ∷ cs)
  attached_step current x cs true h ih = here (some-injective _ _ h)
  attached_step current x cs false h ih = there (ih h)

  pub attached-In :
      (current : ℕ) (cs : List Candidate) {c : Candidate}
      → attached env current cs ≡ some c
      → In c cs
  unfolding attached
  attached-In current [] h = absurd (cc)
  attached-In current (x ∷ cs) h =
      attached_step current x cs (x.cert.id == current) h (attached-In current cs)

  -- The selection stands for a candidate whose class is no worse than the winner's.
  pub record Selects (cs : List Candidate) (winner : Candidate) (sel : Selection) : Type 0 where
    pub chosen : Candidate
    pub among : In chosen cs
    pub id_is : sel.id ≡ chosen.cert.id
    pub class_is : sel.class ≡ chosen.class
    pub no_worse : rank chosen.class ≤ rank winner.class

  keep-Selects :
      (domains : List Text) (w c : Candidate) (cs : List Candidate) (b : Bool)
      → leb (rank c.class) (rank w.class) ≡ b
      → In c (w ∷ cs)
      → Selects (w ∷ cs) w (if b then selected env domains true c else selected env domains false w)
  keep-Selects domains w c cs true e m = record {
    chosen = c;
    among = m;
    id_is = refl;
    class_is = refl;
    no_worse = leb→le _ _ e;
  }
  keep-Selects domains w c cs false e m = record {
    chosen = w;
    among = here refl;
    id_is = refl;
    class_is = refl;
    no_worse = omega arith;
  }

  keep_or_win-Selects :
      (domains : List Text) (w : Candidate) (cs : List Candidate) (o : Option Candidate)
      → ((c : Candidate) → o ≡ some c → In c (w ∷ cs))
      → Selects (w ∷ cs) w (keep_or_win env domains w o)
  unfolding keep_or_win
  keep_or_win-Selects domains w cs none h = record {
    chosen = w;
    among = here refl;
    id_is = refl;
    class_is = refl;
    no_worse = omega arith;
  }
  keep_or_win-Selects domains w cs (some c) h =
      keep-Selects domains w c cs (leb (rank c.class) (rank w.class)) refl (h c refl)

  kept-In :
      (current : ℕ) (cs : List Candidate) (b : Bool) (c : Candidate)
      → (if b then attached env current cs else none) ≡ some c
      → In c cs
  kept-In current cs true c h = attached-In current cs h
  kept-In current cs false c h = absurd (cc)

  -- `best` finds nothing exactly if there is no candidate, and else selects one of them.
  pub pick-Selects :
      (domains : List Text) (current : ℕ) (w : Candidate) (cs : List Candidate) {sel : Selection}
      → pick env domains current (w ∷ cs) ≡ some sel
      → Selects (w ∷ cs) w sel
  unfolding pick
  pick-Selects domains current w cs h =
      subst (Selects (w ∷ cs) w) (some-injective _ _ h)
        (keep_or_win-Selects domains w cs _ (kept-In current (w ∷ cs) (ltb 0 current)))

  pub pick-none :
      (domains : List Text) (current : ℕ) (cs : List Candidate)
      → pick env domains current cs ≡ none
      → cs ≡ []
  unfolding pick
  pick-none domains current [] h = refl
  pick-none domains current (w ∷ cs) h = absurd (some-ne-none _ h)
