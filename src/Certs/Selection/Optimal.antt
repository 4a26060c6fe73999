-- ===== src/Certs/Selection/Optimal.antt =====
-- `best` is sound, complete and optimal: its order is a strict weak order, so the first of the
-- sorted candidates is the best one.
use mathlib.Core.Option.{none-ne-some}
use mathlib.Core.Path.{subst}
use npmplus_docker_sync.Base.{
  ℕ, ◌≤◌, true, false, Option, none, some, List, [], ◌∷◌, ◌≡◌, refl, sym, ap, ◌∙◌, arith, All, In,
  here, there, All-In, Bool-cases, inl, inr, not-In-nil,
}
use npmplus_docker_sync.Base.Sort.Laws.{In_sort_of_In, sort-IsSorted}
use npmplus_docker_sync.Base.Sort.{IsSorted}
use npmplus_docker_sync.Base.Text.{Text}
use npmplus_docker_sync.Certs.Names.{classify}
use npmplus_docker_sync.Certs.Selection.Best.{
  fits, IsCandidate, ranked, ranked-IsCandidate, candidates_complete, Selects, pick-Selects,
  pick-none,
}
use npmplus_docker_sync.Certs.Selection.{by_id, Candidate, better_by, better, expiry, pick, best}
use npmplus_docker_sync.Certs.Types.{Certificate, rank, Selection, Options, Env}

better_by_asym :
    (r s : ℕ) (t u : Option ℕ) (i j : ℕ)
    → better_by r s t u i j ≡ true
    → better_by s r u t j i ≡ false
unfolding better_by
better_by_asym r s none none i j h = ground arith
better_by_asym r s none (some u) i j h = ground arith
better_by_asym r s (some t) none i j h = ground arith
better_by_asym r s (some t) (some u) i j h = ground arith

better_by_trans :
    (r s q : ℕ) (t u v : Option ℕ) (i j k : ℕ)
    → better_by s r u t j i ≡ false
    → better_by q s v u k j ≡ false
    → better_by q r v t k i ≡ false
unfolding better_by
better_by_trans r s q none none none i j k h g = ground arith
better_by_trans r s q none none (some v) i j k h g = ground arith
better_by_trans r s q none (some u) none i j k h g = ground arith
better_by_trans r s q none (some u) (some v) i j k h g = ground arith
better_by_trans r s q (some t) none none i j k h g = ground arith
better_by_trans r s q (some t) none (some v) i j k h g = ground arith
better_by_trans r s q (some t) (some u) none i j k h g = ground arith
better_by_trans r s q (some t) (some u) (some v) i j k h g = ground arith

better_by_rank : (r s : ℕ) (t u : Option ℕ) (i j : ℕ) → better_by s r u t j i ≡ false → r ≤ s
unfolding better_by
better_by_rank r s t u i j h = ground arith

module _ (env : Env) where
  -- The choice that `best` has to make.
  pub record IsBest (domains : List Text) (list : List Certificate) (opts : Options)
      (sel : Selection) : Type 0 where
    pub cert : Certificate
    pub listed : In cert list
    pub fitting : fits env domains opts.now cert ≡ true
    pub id_is : sel.id ≡ cert.id
    pub class_is : sel.class ≡ classify env cert domains
    pub optimal :
        (c : Certificate)
        → In c list
        → fits env domains opts.now c ≡ true
        → rank sel.class ≤ rank (classify env c domains)

  better_asym : (a b : Candidate) → better env a b ≡ true → better env b a ≡ false
  unfolding better
  better_asym a b =
      better_by_asym (rank a.class) (rank b.class) (expiry env a.cert) (expiry env b.cert) a.cert.id
        b.cert.id

  better_trans :
      (a b c : Candidate) → better env b a ≡ false → better env c b ≡ false → better env c a ≡ false
  unfolding better
  better_trans a b c =
      better_by_trans (rank a.class) (rank b.class) (rank c.class) (expiry env a.cert)
        (expiry env b.cert) (expiry env c.cert) a.cert.id b.cert.id c.cert.id

  better-rank : (a b : Candidate) → better env b a ≡ false → rank a.class ≤ rank b.class
  unfolding better
  better-rank a b =
      better_by_rank (rank a.class) (rank b.class) (expiry env a.cert) (expiry env b.cert) a.cert.id
        b.cert.id

  -- The winner is at least as good as every candidate.
  winner_rank :
      (w : Candidate) (cs : List Candidate) (x : Candidate)
      → All (λ y. better env y w ≡ false) cs
      → In x (w ∷ cs)
      → rank w.class ≤ rank x.class
  winner_rank w cs x h (here e) = rw (ap (λ y. rank y.class) e) (omega arith)
  winner_rank w cs x h (there m) = better-rank w x (All-In (λ y. better env y w ≡ false) cs h m)

  module _ (domains : List Text) (list : List Certificate) (opts : Options) where
    pub ranked_complete :
        (c : Certificate)
        → In c list
        → fits env domains opts.now c ≡ true
        → In (record { cert = c; class = classify env c domains }) (ranked env domains list opts)
    unfolding by_id
    ranked_complete c m f =
        In_sort_of_In (better env) _
          (candidates_complete env domains opts.now c (by_id list) (In_sort_of_In _ list m) f)

    IsBest-of_winner :
        (w : Candidate) (cs : List Candidate) {sel : Selection}
        → w ∷ cs ≡ ranked env domains list opts
        → Selects env (w ∷ cs) w sel
        → IsBest domains list opts sel
    IsBest-of_winner w cs e s = record {
      cert = s.chosen.cert;
      listed = c.listed;
      fitting = c.fitting;
      id_is = s.id_is;
      class_is = s.class_is ∙ c.class_is;
      optimal = λ a m f.
          let below = winner_rank w cs _ front.0 (subst (In _) (sym e) (ranked_complete a m f)) in
          rw s.class_is (omega (arith, s.no_worse));
    }
      where
        c : IsCandidate env domains opts.now list s.chosen
        c =
            All-In (IsCandidate env domains opts.now list) _
              (subst (All (IsCandidate env domains opts.now list)) (sym e)
                (ranked-IsCandidate env domains list opts))
              s.among

        front : IsSorted (better env) (w ∷ cs)
        front =
            subst (IsSorted (better env)) (sym e)
              (sort-IsSorted (better env) better_asym better_trans _)

    IsBest-of_ranked :
        (cs : List Candidate) {sel : Selection}
        → cs ≡ ranked env domains list opts
        → pick env domains opts.current cs ≡ some sel
        → IsBest domains list opts sel
    unfolding pick
    IsBest-of_ranked [] e h = absurd (none-ne-some _ h)
    IsBest-of_ranked (w ∷ cs) e h =
        IsBest-of_winner w cs e (pick-Selects env domains opts.current w cs h)

    -- What `best` returns is a certificate of the list that is usable and covers every domain,
    -- with its own class, and no certificate that fits is in a better class.
    pub best-IsBest :
        {sel : Selection} → best env domains list opts ≡ some sel → IsBest domains list opts sel
    unfolding best
    best-IsBest h = IsBest-of_ranked (ranked env domains list opts) refl h

    -- `best` returns nothing only if no certificate of the list fits.
    pub best-none :
        best env domains list opts ≡ none
        → (c : Certificate) → In c list
        → fits env domains opts.now c ≡ false
    unfolding best
    best-none h c m = elim (Bool-cases (fits env domains opts.now c)) [
      | inl f ↦
          absurd (not-In-nil _ (pick-none env domains opts.current _ h) (ranked_complete c m f))
      | inr f ↦ f
    ]
