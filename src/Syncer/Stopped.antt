-- ===== src/Syncer/Stopped.antt =====
-- Stopped containers: `trackStopped`, `inGrace` and `applyStopPolicy` of
-- internal/syncer/worker.go.
use npmplus_docker_sync.Base.{
  In, here, there, In-keep, ◌≡◌, ap, ◌∙◌, ℕ, ◌-◌, ◌==◌, Bool, true, false, not, ◌||◌, none, some,
  List, [], ◌∷◌, if◌then◌else◌, ltb, keep, any,
}
use npmplus_docker_sync.Base.Dict
use npmplus_docker_sync.Base.Dict.{Dict}
use npmplus_docker_sync.Base.Text.{Text, ◌=?◌}
use npmplus_docker_sync.Docker.Types.{OnStop, Target, disable, keep as keep_it, delete}
use npmplus_docker_sync.Syncer.Types.{Options}

-- `containerKey`
unfoldable pub container_key : Target → Text
container_key t = if not (t.container_id =? []) then t.container_id else t.container_name

abbrev track_one : ℕ → Target → Dict ℕ → Dict ℕ
track_one now t since =
    if t.running
    then Dict.erase (container_key t) since
    else if Dict.has_key (container_key t) since
    then since
    else Dict.insert (container_key t) now since

track_all : ℕ → List Target → Dict ℕ → Dict ℕ
track_all now [] since = since
track_all now (t ∷ ts) since = track_all now ts (track_one now t since)

-- `Worker.trackStopped`: the entries of containers that no target names are dropped.
unfoldable pub track_stopped : ℕ → List Target → Dict ℕ → Dict ℕ
unfolding track_all container_key
track_stopped now ts since =
    keep (λ (id, at). any (λ t. container_key t =? id) ts) (track_all now ts since)

-- `Worker.inGrace`
unfoldable pub in_grace : Options → Dict ℕ → Target → ℕ → Bool
in_grace opts since t now =
    if t.running || opts.stop_grace == 0
    then false
    else elim (Dict.lookup (container_key t) since) [
      | none ↦ true
      | some at ↦ ltb (now - at) opts.stop_grace
    ]

apply_policy : OnStop → Options → Dict ℕ → ℕ → List Target → List Target
unfolding in_grace
apply_policy delete opts since now ts = keep (λ t. t.running || in_grace opts since t now) ts
apply_policy disable opts since now ts = ts
apply_policy keep_it opts since now ts = ts

-- `Worker.applyStopPolicy`
unfoldable pub apply_stop_policy : Options → Dict ℕ → ℕ → List Target → List Target
unfolding apply_policy
apply_stop_policy opts since now ts = apply_policy opts.on_stop opts since now ts

In-keep_of :
    (p : Target → Bool) (t : Target) (ts : List Target) → p t ≡ true → In t ts → In t (keep p ts)
In-keep_of p t [] h m = elim m [ ]
In-keep_of p t (u ∷ ts) h (here e) = first (p u) (ap p e ∙ h)
  where
    first : (b : Bool) → b ≡ true → In t (elim b [ true ↦ u ∷ keep p ts | false ↦ keep p ts ])
    first true i = here e
    first false i = absurd (cc)
In-keep_of p t (u ∷ ts) h (there m) = either (p u) (In-keep_of p t ts h m)
  where
    either :
        (b : Bool) → In t (keep p ts) → In t (elim b [ true ↦ u ∷ keep p ts | false ↦ keep p ts ])
    either true i = there i
    either false i = i

apply_policy-running :
    (s : OnStop) (opts : Options) (since : Dict ℕ) (now : ℕ) (ts : List Target) (t : Target)
    → t.running ≡ true
    → In t ts
    → In t (apply_policy s opts since now ts)
unfolding apply_policy
apply_policy-running delete opts since now ts t h m =
    In-keep_of (λ t. t.running || in_grace opts since t now) t ts
      (ap (λ b. b || in_grace opts since t now) h) m
apply_policy-running disable opts since now ts t h m = m
apply_policy-running keep_it opts since now ts t h m = m

-- The stop policy never drops the target of a running container.
pub apply_stop_policy-running :
    (opts : Options) (since : Dict ℕ) (now : ℕ) (ts : List Target) (t : Target)
    → t.running ≡ true
    → In t ts
    → In t (apply_stop_policy opts since now ts)
unfolding apply_stop_policy
apply_stop_policy-running opts since now ts t h m =
    apply_policy-running opts.on_stop opts since now ts t h m

apply_policy-In :
    (s : OnStop) (opts : Options) (since : Dict ℕ) (now : ℕ) (ts : List Target) (t : Target)
    → In t (apply_policy s opts since now ts)
    → In t ts
unfolding apply_policy
apply_policy-In delete opts since now ts t m =
    (In-keep (λ t. t.running || in_grace opts since t now) ts m).0
apply_policy-In disable opts since now ts t m = m
apply_policy-In keep_it opts since now ts t m = m

-- It adds no target.
pub apply_stop_policy-In :
    (opts : Options) (since : Dict ℕ) (now : ℕ) (ts : List Target) (t : Target)
    → In t (apply_stop_policy opts since now ts)
    → In t ts
unfolding apply_stop_policy
apply_stop_policy-In opts since now ts t m = apply_policy-In opts.on_stop opts since now ts t m
