-- ===== src/Certs/Selection/Stability.antt =====
-- `best` does not move a host away from the certificate that it has without need.
use mathlib.Core.Option.{none-ne-some, some-injective}
use npmplus_docker_sync.Base.{
  ℕ, ◌==◌, ◌≤◌, ◌<◌, Bool, true, false, some, List, [], ◌∷◌, ◌≡◌, refl, sym, ap, ◌∙◌, arith,
  if◌then◌else◌, lt→ltb, In, here, there, All, All-In, not-In-nil, ==_iff,
}
use npmplus_docker_sync.Base.Text.{Text}
use npmplus_docker_sync.Certs.Names.{classify}
use npmplus_docker_sync.Certs.Selection.Best.{
  fits, IsCandidate, ranked, ranked-IsCandidate, attached-In,
}
use npmplus_docker_sync.Certs.Selection.Optimal.{ranked_complete}
use npmplus_docker_sync.Certs.Selection.{Candidate, attached, keep_or_win, pick, best, selected}
use npmplus_docker_sync.Certs.Types.{Certificate, rank, Selection, Options, Env}

module _ (env : Env) where
  -- The candidate that `attached` finds has the id that is looked for.
  attached_step :
      (current : ℕ) (x : Candidate) (cs : List Candidate) {c : Candidate} (b : Bool)
      → (x.cert.id == current) ≡ b
      → (if b then some x else attached env current cs) ≡ some c
      → (attached env current cs ≡ some c → c.cert.id ≡ current)
      → c.cert.id ≡ current
  attached_step current x cs true e h ih =
      ap (λ (y : Candidate). y.cert.id) (sym (some-injective _ _ h)) ∙ (==_iff _ _).0 e
  attached_step current x cs false e h ih = ih h

  attached_id :
      (current : ℕ) (cs : List Candidate) {c : Candidate}
      → attached env current cs ≡ some c
      → c.cert.id ≡ current
  unfolding attached
  attached_id current [] h = absurd (none-ne-some _ h)
  attached_id current (x ∷ cs) h =
      attached_step current x cs (x.cert.id == current) refl h (attached_id current cs)

  -- A candidate with the id is found.
  attached_found_step :
      (current : ℕ) (x a : Candidate) (cs : List Candidate) (b : Bool)
      → (x.cert.id == current) ≡ b
      → In a (x ∷ cs)
      → a.cert.id ≡ current
      → (In a cs → (c : Candidate) × (attached env current cs ≡ some c))
      → (c : Candidate) × ((if b then some x else attached env current cs) ≡ some c)
  attached_found_step current x a cs true t m e ih = (x, refl)
  attached_found_step current x a cs false t (there m) e ih = ih m
  attached_found_step current x a cs false t (here q) e ih =
      absurd (not-same (ap (λ (y : Candidate). y.cert.id) q ∙ e))
    where
      not-same : x.cert.id ≡ current → ⊥
      not-same p = ground arith

  attached_found :
      (current : ℕ) (cs : List Candidate) (a : Candidate)
      → In a cs
      → a.cert.id ≡ current
      → (c : Candidate) × (attached env current cs ≡ some c)
  unfolding attached
  attached_found current [] a m e = elim m [ ]
  attached_found current (x ∷ cs) a m e =
      attached_found_step current x a cs (x.cert.id == current) refl m e
        (λ i. attached_found current cs a i e)

  keeps :
      (domains : List Text) (w c : Candidate)
      → rank c.class ≤ rank w.class
      → keep_or_win env domains w (some c) ≡ selected env domains true c
  unfolding keep_or_win
  keeps domains w c h = ground arith

  module _ (domains : List Text) (list : List Certificate) (opts : Options) (a : Certificate)
      (listed : In a list) (fitting : fits env domains opts.now a ≡ true)
      (is_current : a.id ≡ opts.current) (set : 0 < opts.current)
      (unique : (c : Certificate) → In c list → c.id ≡ opts.current → c ≡ a)
      (best_class : (c : Certificate)
        → In c list
        → fits env domains opts.now c ≡ true
        → rank (classify env a domains) ≤ rank (classify env c domains)) where
    pick_current :
        (cs : List Candidate) (c : Candidate)
        → attached env opts.current cs ≡ some c
        → All (IsCandidate env domains opts.now list) cs
        → (sel : Selection) × (pick env domains opts.current cs ≡ some sel)
          × (sel.id ≡ opts.current)
          × (sel.kept ≡ true)
    unfolding pick
    pick_current [] c e h = absurd (not-In-nil [] refl (attached-In env opts.current [] e))
    pick_current (w ∷ cs) c e h = (
      selected env domains true c,
      rw (lt→ltb 0 opts.current set) (rw e (ap some (keeps domains w c below))),
      attached_id opts.current (w ∷ cs) e,
      refl,
    )
      where
        k : IsCandidate env domains opts.now list c
        k =
            All-In (IsCandidate env domains opts.now list) (w ∷ cs) h
              (attached-In env opts.current (w ∷ cs) e)

        same : c.cert ≡ a
        same = unique c.cert k.listed (attached_id opts.current (w ∷ cs) e)

        of_c : rank c.class ≡ rank (classify env a domains)
        of_c = ap rank (k.class_is ∙ ap (λ d. classify env d domains) same)

        of_w : rank w.class ≡ rank (classify env w.cert domains)
        of_w = ap rank h.0.class_is

        below : rank c.class ≤ rank w.class
        below = omega (arith, of_c, of_w, best_class w.cert h.0.listed h.0.fitting)

    -- A certificate that is attached, still usable and still covers every domain stays attached,
    -- as long as no other certificate is in a strictly better class and its id is unique.
    pub best_stable :
        (sel : Selection) × (best env domains list opts ≡ some sel)
        × (sel.id ≡ opts.current)
        × (sel.kept ≡ true)
    unfolding best
    best_stable =
        let (c, e) =
          attached_found opts.current (ranked env domains list opts) _
            (ranked_complete env domains list opts a listed fitting) is_current in
        pick_current (ranked env domains list opts) c e (ranked-IsCandidate env domains list opts)
