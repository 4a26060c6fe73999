-- ===== src/Docker/Managed/Laws.antt =====
-- The counts of `Classify`.
use npmplus_docker_sync.Base.{
  ℕ, suc, ◌+◌, ◌≤◌, Bool, true, false, List, [], ◌∷◌, ◌≡◌, arith, length,
}
use npmplus_docker_sync.Docker.Address.{Container, ParseOptions, running}
use npmplus_docker_sync.Docker.Managed.{
  Verdict, accepted, own_container, opt_out, no_opt_in, no_labels, invalid_enable, managed,
  add_verdict, classify_from, classify, no_containers,
}
use npmplus_docker_sync.Docker.Types.{Summary}

abbrev pub total : Summary → ℕ
total s = s.managed + s.opted_out + s.unlabeled

total-add_verdict :
    (v : Verdict) (up : Bool) (s : Summary) → total (add_verdict v up s) ≡ suc (total s)
unfolding add_verdict
total-add_verdict accepted true s = omega arith
total-add_verdict accepted false s = omega arith
total-add_verdict opt_out up s = omega arith
total-add_verdict own_container up s = omega arith
total-add_verdict no_opt_in up s = omega arith
total-add_verdict no_labels up s = omega arith
total-add_verdict (invalid_enable v) up s = omega arith

stopped-add_verdict :
    (v : Verdict) (up : Bool) (s : Summary)
    → s.stopped ≤ s.managed
    → (add_verdict v up s).stopped ≤ (add_verdict v up s).managed
unfolding add_verdict
stopped-add_verdict accepted true s h = omega arith
stopped-add_verdict accepted false s h = omega arith
stopped-add_verdict opt_out up s h = h
stopped-add_verdict own_container up s h = h
stopped-add_verdict no_opt_in up s h = h
stopped-add_verdict no_labels up s h = h
stopped-add_verdict (invalid_enable v) up s h = h

total-classify_from :
    (s : Summary) (cs : List Container) (opts : ParseOptions)
    → total (classify_from s cs opts) ≡ length cs + total s
unfolding classify_from
total-classify_from s [] opts = omega arith
total-classify_from s (c ∷ cs) opts = omega (
  arith,
  total-classify_from (add_verdict (managed c opts) (running c) s) cs opts,
  total-add_verdict (managed c opts) (running c) s,
)

stopped-classify_from :
    (s : Summary) (cs : List Container) (opts : ParseOptions)
    → s.stopped ≤ s.managed
    → (classify_from s cs opts).stopped ≤ (classify_from s cs opts).managed
unfolding classify_from
stopped-classify_from s [] opts h = h
stopped-classify_from s (c ∷ cs) opts h =
    stopped-classify_from (add_verdict (managed c opts) (running c) s) cs opts
      (stopped-add_verdict (managed c opts) (running c) s h)

-- Every container is counted once, as managed, opted out or unlabelled, and no more containers are
-- stopped than managed.
classify-counts :
    (cs : List Container) (opts : ParseOptions)
    → (total (classify cs opts) ≡ length cs)
      × ((classify cs opts).stopped ≤ (classify cs opts).managed)
unfolding classify
classify-counts cs opts = (
  omega (arith, total-classify_from no_containers cs opts),
  stopped-classify_from no_containers cs opts (omega arith),
)
