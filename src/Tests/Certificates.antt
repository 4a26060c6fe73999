-- ===== src/Tests/Certificates.antt =====
-- The selection of certificates at concrete inputs (internal/certs/certs.go).
use npmplus_docker_sync.Base.{
  ℕ, ◌≤◌, ◌==◌, Bool, true, false, List, [], ◌∷◌, ◌≡◌, ◌≢◌, ◌↔◌, refl, sym, ap, arith, Option, none,
  some, In, here, there,
}
use npmplus_docker_sync.Base.Text.{Text, text}
use npmplus_docker_sync.Certs.Names.{classify, uncovered, wildcard_match, canonical}
use npmplus_docker_sync.Certs.Names.Coverage.{classify-uncovered_iff}
use npmplus_docker_sync.Certs.Names.Wildcard.{wildcard_match_iff, OneLabelBelow}
use npmplus_docker_sync.Certs.Parsing.{parse_spec}
use npmplus_docker_sync.Certs.Types.{
  Spec, id_mode, rank, Certificate, Selection, Options, Env, primary, no_match, exact_only,
}
use npmplus_docker_sync.Certs.Selection.{best, resolve_auto}
use npmplus_docker_sync.Certs.Selection.Best.{fits}
use npmplus_docker_sync.Certs.Selection.Optimal.{best-IsBest, IsBest}
use npmplus_docker_sync.Certs.Selection.Resolution.{resolve_auto-Safe, Safe}
use npmplus_docker_sync.Certs.Selection.Stability.{best_stable}

-- Names in ASCII stay as they are; an expiry is read as a date far away, or not at all.
abbrev ascii : Env
ascii = record { to_ascii = λ s. some s; parse_time = λ s. some 1000 }

abbrev first_cert : Certificate
first_cert = record {
  id = 3;
  provider = text "letsencrypt";
  nice_name = text "example";
  domain_names = text "example.org" ∷ [];
  expires_on = text "2030-01-01 00:00:00";
  is_deleted = false;
}

abbrev certs : List Certificate
certs = first_cert ∷ []

abbrev host : List Text
host = text "example.org" ∷ []

abbrev opts : Options
opts = record { current = 3; policy = primary; now = 10 }

abbrev chosen : Selection
chosen = record {
  id = 3;
  fresh = false;
  class = exact_only;
  pattern_text = text "example.org";
  uncovered = [];
  kept = true;
}

first_cert-fits : fits ascii host 10 first_cert ≡ true
unfolding npmplus_docker_sync.Certs.Selection.usable npmplus_docker_sync.Base.Text.equal_fold
    npmplus_docker_sync.Base.Text.trim_space npmplus_docker_sync.Certs.Selection.expiry classify
    npmplus_docker_sync.Certs.Names.canonical_all canonical
    npmplus_docker_sync.Base.Text.trim_suffix npmplus_docker_sync.Base.Text.cut_prefix
    npmplus_docker_sync.Certs.Names.count_matches npmplus_docker_sync.Certs.Names.contains_exact
first_cert-fits = refl

best-host : best ascii host certs opts ≡ some chosen
unfolding best npmplus_docker_sync.Base.Sort.sort npmplus_docker_sync.Certs.Selection.candidates
    npmplus_docker_sync.Certs.Selection.by_id npmplus_docker_sync.Certs.Selection.usable
    npmplus_docker_sync.Base.Text.equal_fold npmplus_docker_sync.Base.Text.trim_space
    npmplus_docker_sync.Certs.Selection.expiry classify
    npmplus_docker_sync.Certs.Names.canonical_all canonical
    npmplus_docker_sync.Base.Text.trim_suffix npmplus_docker_sync.Base.Text.cut_prefix
    npmplus_docker_sync.Certs.Names.count_matches npmplus_docker_sync.Certs.Names.contains_exact
    npmplus_docker_sync.Certs.Selection.attached npmplus_docker_sync.Certs.Names.pattern_for
best-host = refl

best-IsBest_example : IsBest ascii host certs opts chosen
best-IsBest_example = best-IsBest ascii host certs opts best-host

best_other : best ascii (text "other.org" ∷ []) certs opts ≡ none
unfolding best npmplus_docker_sync.Base.Sort.sort npmplus_docker_sync.Certs.Selection.candidates
    npmplus_docker_sync.Certs.Selection.by_id npmplus_docker_sync.Certs.Selection.usable
    npmplus_docker_sync.Base.Text.equal_fold npmplus_docker_sync.Base.Text.trim_space
    npmplus_docker_sync.Certs.Selection.expiry classify
    npmplus_docker_sync.Certs.Names.canonical_all canonical
    npmplus_docker_sync.Base.Text.trim_suffix npmplus_docker_sync.Base.Text.cut_prefix
    npmplus_docker_sync.Certs.Names.count_matches npmplus_docker_sync.Certs.Names.contains_exact
    npmplus_docker_sync.Certs.Names.matches_wildcard
best_other = refl

resolve_auto-Safe_example : Safe ascii host certs opts (resolve_auto ascii host certs opts)
resolve_auto-Safe_example = resolve_auto-Safe ascii certs opts host

first_cert_only : (c : Certificate) → In c certs → c.id ≡ 3 → c ≡ first_cert
first_cert_only c (here e) h = sym e
first_cert_only c (there m) h = elim m [ ]

first_cert_best :
    (c : Certificate)
    → In c certs
    → fits ascii host 10 c ≡ true
    → rank (classify ascii first_cert host) ≤ rank (classify ascii c host)
first_cert_best c (here e) h =
    let same = ap (λ d. rank (classify ascii d host)) e in omega (arith, same)
first_cert_best c (there m) h = elim m [ ]

best_stable_example :
    (sel : Selection) × (best ascii host certs opts ≡ some sel) × (sel.id ≡ 3) × (sel.kept ≡ true)
best_stable_example =
    best_stable ascii host certs opts first_cert (here refl) first_cert-fits refl (ground arith)
      first_cert_only first_cert_best

classify-uncovered_iff_example :
    (classify ascii first_cert host ≢ no_match) ↔ (uncovered ascii first_cert host ≡ [])
unfolding canonical npmplus_docker_sync.Certs.Names.canonical_all
    npmplus_docker_sync.Base.Text.trim_suffix npmplus_docker_sync.Base.Text.to_lower
    npmplus_docker_sync.Base.Text.trim_space npmplus_docker_sync.Base.Text.cut_prefix
classify-uncovered_iff_example = classify-uncovered_iff ascii first_cert host refl refl

wildcard_match_iff_example :
    (wildcard_match (text "*.example.org") (text "app.example.org") ≡ true)
    ↔ OneLabelBelow (text "*.example.org") (text "app.example.org")
wildcard_match_iff_example = wildcard_match_iff (text "*.example.org") (text "app.example.org")

abbrev by_id_twelve : Spec
by_id_twelve = record { mode = id_mode; id = 12; domain = []; name = []; raw = text "12" }

twelve : parse_spec (text " 12 ") ≡ some by_id_twelve
unfolding parse_spec npmplus_docker_sync.Base.Text.◌=?◌ npmplus_docker_sync.Base.Text.to_lower
    npmplus_docker_sync.Base.Text.trim_space npmplus_docker_sync.Base.Text.cut_prefix
    npmplus_docker_sync.Base.Number.atoi
twelve = refl
