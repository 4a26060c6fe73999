-- ===== src/Syncer/Collection/Counting.antt =====
-- The counters of a run (internal/syncer/worker.go): every definition is counted once.
use npmplus_docker_sync.Base.Sort.{sort, insert_sorted, sort_texts}
use npmplus_docker_sync.Base.Sort.Laws.{length-sort, In-sort}
use npmplus_docker_sync.Base.Text.{◌<?◌, Text, ◌=?◌}
use npmplus_docker_sync.Syncer.Collection.{
  sorted_keys, Loop, Pass, count, visit_of, visit_target, visit_keys,
}
use npmplus_docker_sync.Syncer.Listed.{first_pass}
use npmplus_docker_sync.Syncer.Ownership.{index_targets, before, put_target, put_targets}
use npmplus_docker_sync.Base.{
  All-of_In, ap, ◌∙◌, ℕ, suc, ◌+◌, Bool, false, not, Option, none, some, List, [], ◌∷◌, ◌≡◌, refl,
  arith, if◌then◌else◌, length, keep, All,
}
use npmplus_docker_sync.Syncer.Types.{Worker, Env, Counters}
use npmplus_docker_sync.Base.Dict
use npmplus_docker_sync.Base.Dict.{Dict}
use npmplus_docker_sync.Docker.Types.{Target, key}
use npmplus_docker_sync.Syncer.Visit.{visit}
use npmplus_docker_sync.Syncer.Write.{Outcome, skipped, unchanged, created, updated, failed}

-- The sum of all counters.
abbrev pub total : Counters → ℕ
total c = c.created + c.updated + c.deleted + c.unchanged + c.skipped + c.failed

module _ (E : Env) where
  count-total : (o : Outcome E) (c : Counters) → total (count E o c) ≡ suc (total c)
  unfolding count
  count-total skipped c = omega arith
  count-total unchanged c = omega arith
  count-total created c = omega arith
  count-total updated c = omega arith
  count-total (failed p) c = omega arith

  visit_target-total :
      (l : Loop E) (k : Text) (t : Target) (o : Option Target) (p : Pass E)
      → o ≡ some t
      → total (visit_target E l k o p).result ≡ suc (total p.result)
  visit_target-total l k t none p h = absurd (cc)
  visit_target-total l k t (some u) p h =
      let (o, e, w) = visit E (visit_of E l k u) (Dict.lookup k l.existing) p.worker in
      count-total o p.result

  visit_keys-total :
      (l : Loop E) (ks : List Text) (p : Pass E)
      → All (λ k. (t : Target) × (Dict.lookup k l.desired ≡ some t)) ks
      → total (visit_keys E l ks p).result ≡ total p.result + length ks
  unfolding visit_keys
  visit_keys-total l [] p hs = omega arith
  visit_keys-total l (k ∷ ks) p hs =
      let o = Dict.lookup k l.desired in
      let here' = visit_target-total l k hs.0.0 o p hs.0.1 in
      let rest = visit_keys-total l ks (visit_target E l k o p) hs.1 in omega (arith, here', rest)

length-insert_new :
    (k : Text) (t : Target) (out : Dict Target)
    → Dict.has_key k out ≡ false
    → length (Dict.insert k t out) ≡ suc (length out)
unfolding Dict.insert Dict.has_key Dict.lookup
length-insert_new k t [] h = refl
length-insert_new k t ((j, u) ∷ out) h = ground (arith, length-insert_new k t out)

abbrev has_own_key : Target → Bool
has_own_key t = not (key t =? [])

abbrev size : Dict Target × List Target → ℕ
size acc = length acc.0 + length acc.1

put_target-size :
    (t : Target) (acc : Dict Target × List Target)
    → size (put_target t acc) ≡ size acc + (if has_own_key t then 1 else 0)
put_target-size t acc = ground (arith, length-insert_new (key t) t acc.0)

put_targets-size :
    (ts : List Target) (acc : Dict Target × List Target)
    → size (put_targets ts acc) ≡ size acc + length (keep has_own_key ts)
unfolding put_targets
put_targets-size [] acc = omega arith
put_targets-size (t ∷ ts) acc =
    let one = put_target-size t acc in
    let rest = put_targets-size ts (put_target t acc) in ground (arith, one, rest)

module _ (p : Target → Bool) where
  keep-insert_sorted :
      (t : Target) (ts : List Target)
      → length (keep p (insert_sorted before t ts)) ≡ length (keep p (t ∷ ts))
  unfolding insert_sorted
  keep-insert_sorted t [] = refl
  keep-insert_sorted t (u ∷ ts) = ground (arith, keep-insert_sorted t ts)

  keep-sort : (ts : List Target) → length (keep p (sort before ts)) ≡ length (keep p ts)
  unfolding sort
  keep-sort [] = refl
  keep-sort (t ∷ ts) =
      let first = keep-insert_sorted t (sort before ts) in
      let rest = keep-sort ts in ground (arith, first, rest)

length-keys : (m : Dict Target) → length (Dict.keys m) ≡ length m
unfolding Dict.keys
length-keys [] = refl
length-keys ((k, t) ∷ m) = omega (arith, length-keys m)

length-sorted_keys : (m : Dict Target) → length (sorted_keys m) ≡ length m
unfolding sorted_keys sort_texts
length-sorted_keys m = length-sort ◌<?◌ (Dict.keys m) ∙ length-keys m

-- Each key of the sorted keys has its target.
sorted_keys-Found :
    (m : Dict Target) → All (λ k. (t : Target) × (Dict.lookup k m ≡ some t)) (sorted_keys m)
unfolding sorted_keys sort_texts
sorted_keys-Found m =
    All-of_In (λ k. (t : Target) × (Dict.lookup k m ≡ some t)) (sort ◌<?◌ (Dict.keys m))
      (λ k i. Dict.lookup_of_In-keys k m (In-sort ◌<?◌ (Dict.keys m) i))

-- The counters after the first loop of a collection add up to the number of the targets that have
-- a key: each of them, duplicates included, is counted exactly once, as created, updated,
-- unchanged, skipped or failed.
visit_keys-counts :
    (E : Env) (l : Loop E) (ts : List Target) (w : Worker E)
    → l.desired ≡ (index_targets ts).0
    → total (visit_keys E l (sorted_keys l.desired) (first_pass E (index_targets ts).1 w)).result
      ≡ length (keep has_own_key ts)
unfolding index_targets
visit_keys-counts E l ts w h =
    let indexed = index_targets ts in
    let visits =
      visit_keys-total E l (sorted_keys l.desired) (first_pass E indexed.1 w)
        (sorted_keys-Found l.desired) in
    let sized = put_targets-size (sort before ts) ([], []) in
    let kept = keep-sort has_own_key ts in
    let listed = length-sorted_keys l.desired in
    let same = ap length h in omega (arith, visits, sized, kept, listed, same)
