-- ===== src/Certs/Selection/Resolution.antt =====
-- `Resolve`: what the automatic selection attaches.
use npmplus_docker_sync.Base.{
  ℕ, ◌<◌, ◌==◌, Bool, true, false, not, ◌||◌, Option, none, some, List, [], ◌∷◌, ◌≡◌, ◌⊎◌, inl, inr,
  refl, In, &&-split, arith, if◌then◌else◌,
}
use npmplus_docker_sync.Base.Text.{Text, text, equal_fold, trim_space}
use npmplus_docker_sync.Certs.Names.{classify}
use npmplus_docker_sync.Certs.Selection.Optimal.{best-IsBest}
use npmplus_docker_sync.Certs.Selection.{
  usable, expiry, expired, best, by_primary, partial_match, nothing_covers, resolve_auto, is_match,
  with_uncovered,
}
use npmplus_docker_sync.Certs.Types.{
  Certificate, Selection, Options, Env, Partial, primary, partial_none,
}

module _ (env : Env) where
  -- What makes a certificate fit for a server at the time `now`.
  pub record Serves (cert : Certificate) (now : ℕ) : Type 0 where
    pub has_id : 0 < cert.id
    pub not_deleted : cert.is_deleted ≡ false
    pub no_client_ca : equal_fold (trim_space cert.provider) (text "mtls") ≡ false
    pub not_expired : (t : ℕ) → expiry env cert ≡ some t → now < t

  unexpired : (o : Option ℕ) (now : ℕ) → expired env o now ≡ false → (t : ℕ) → o ≡ some t → now < t
  unexpired none now h t e = absurd (cc)
  unexpired (some s) now h t e = ground arith

  spelled_out :
      (cert : Certificate) (now : ℕ) (zero_id deleted ca late : Bool)
      → (cert.id == 0) ≡ zero_id
      → cert.is_deleted ≡ deleted
      → equal_fold (trim_space cert.provider) (text "mtls") ≡ ca
      → expired env (expiry env cert) now ≡ late
      → (if zero_id || deleted then false else if ca then false else not late) ≡ true
      → Serves cert now
  spelled_out cert now false false false false i d c l h = record {
    has_id = ground arith;
    not_deleted = d;
    no_client_ca = c;
    not_expired = unexpired (expiry env cert) now l;
  }
  spelled_out cert now true d c l i e f g h = absurd (cc)
  spelled_out cert now false true c l i e f g h = absurd (cc)
  spelled_out cert now false false true l i e f g h = absurd (cc)
  spelled_out cert now false false false true i e f g h = absurd (cc)

  usable-Serves : (cert : Certificate) (now : ℕ) → usable env cert now ≡ true → Serves cert now
  unfolding usable
  usable-Serves cert now h = spelled_out cert now _ _ _ _ refl refl refl refl h

  -- The selection attaches a certificate of the list that may serve and covers every domain, or
  -- the first domain under the policy `primary`.
  pub record Attaches (domains : List Text) (list : List Certificate) (opts : Options)
      (sel : Selection) : Type 0 where
    pub cert : Certificate
    pub listed : In cert list
    pub id_is : sel.id ≡ cert.id
    pub serves : Serves cert opts.now
    pub covers :
        (is_match env (classify env cert domains) ≡ true)
        ⊎ ((opts.policy ≡ primary)
            × (d : Text) × (ds : List Text) × (domains ≡ d ∷ ds)
            × (is_match env (classify env cert (d ∷ [])) ≡ true))

  abbrev pub Safe : List Text → List Certificate → Options → Selection → Type 0
  Safe domains list opts sel = (sel.id ≡ 0) ⊎ Attaches domains list opts sel

  module _ (list : List Certificate) (opts : Options) where
    best-Safe :
        (domains : List Text) {sel : Selection}
        → best env domains list opts ≡ some sel
        → Safe domains list opts sel
    best-Safe domains h =
        let b = best-IsBest env domains list opts h in
        inr (record {
          cert = b.cert;
          listed = b.listed;
          id_is = b.id_is;
          serves = usable-Serves b.cert opts.now (&&-split _ _ b.fitting).0;
          covers = inl (&&-split _ _ b.fitting).1;
        })

    by_primary-Safe :
        (d : Text) (ds : List Text) (o : Option Selection)
        → best env (d ∷ []) list opts ≡ o
        → opts.policy ≡ primary
        → Safe (d ∷ ds) list opts (elim o [
          | none ↦ nothing_covers env (d ∷ ds)
          | some sel ↦ with_uncovered env list (d ∷ ds) sel
        ])
    by_primary-Safe d ds none e p = inl refl
    by_primary-Safe d ds (some sel) e p =
        let b = best-IsBest env (d ∷ []) list opts e in
        inr (record {
          cert = b.cert;
          listed = b.listed;
          id_is = b.id_is;
          serves = usable-Serves b.cert opts.now (&&-split _ _ b.fitting).0;
          covers = inr (p, d, ds, refl, (&&-split _ _ b.fitting).1);
        })

    partial_match-Safe :
        (p : Partial) (domains : List Text)
        → opts.policy ≡ p
        → Safe domains list opts (partial_match env p domains list opts)
    unfolding partial_match by_primary
    partial_match-Safe partial_none domains e = inl refl
    partial_match-Safe primary [] e = inl refl
    partial_match-Safe primary (d ∷ ds) e =
        by_primary-Safe d ds (best env (d ∷ []) list opts) refl e

    resolve_step :
        (domains : List Text) (o : Option Selection)
        → best env domains list opts ≡ o
        → Safe domains list opts
            (elim o [ some sel ↦ sel | none ↦ partial_match env opts.policy domains list opts ])
    resolve_step domains none e = partial_match-Safe opts.policy domains refl
    resolve_step domains (some sel) e = best-Safe domains e

    -- The automatic selection attaches nothing, or a certificate of the list that has an id, is
    -- neither deleted, nor a client CA, nor expired at the time of the selection (where its expiry
    -- is known), and that covers every domain of the host - or, under the policy `primary`, its
    -- first one.
    pub resolve_auto-Safe :
        (domains : List Text) → Safe domains list opts (resolve_auto env domains list opts)
    unfolding resolve_auto
    resolve_auto-Safe [] = inl refl
    resolve_auto-Safe (d ∷ ds) = resolve_step (d ∷ ds) (best env (d ∷ ds) list opts) refl
