-- ===== src/Syncer/Calls.antt =====
-- The calls of the API as steps of the worker: each goes to the server and into the list of
-- writes (the interface `API` of internal/syncer/worker.go).
use npmplus_docker_sync.Base.{ℕ, Bool, Option, none, some, ◌∷◌, ◌⊎◌, inl, inr}
use npmplus_docker_sync.Npm.Kind.{Kind}
use npmplus_docker_sync.Syncer.Types.{Env, Worker, created, updated, toggled, deleted}

module _ (E : Env) where
  abbrev pub answer_of : E.Error ⊎ E.Resource → Option E.Resource
  answer_of (inl e) = none
  answer_of (inr r) = some r

  -- `API.Create`
  unfoldable pub call_create : E.Resource → Worker E → (E.Error ⊎ E.Resource) × Worker E
  call_create r w =
      let (answer, server) = E.create r w.server in
      (answer, record w { server = server; calls = created r (answer_of answer) ∷ w.calls })

  -- `API.Update`
  unfoldable pub call_update : ℕ → E.Resource → Worker E → (E.Error ⊎ E.Resource) × Worker E
  call_update id r w =
      let (answer, server) = E.update id r w.server in
      (answer, record w { server = server; calls = updated id r ∷ w.calls })

  -- `API.SetEnabled`
  unfoldable pub call_set_enabled : Kind → ℕ → Bool → Worker E → Option E.Error × Worker E
  call_set_enabled k id enabled w =
      let (answer, server) = E.set_enabled k id enabled w.server in
      (answer, record w { server = server; calls = toggled k id enabled ∷ w.calls })

  -- `API.Delete`
  unfoldable pub call_delete : Kind → ℕ → Worker E → Option E.Error × Worker E
  call_delete k id w =
      let (answer, server) = E.delete k id w.server in
      (answer, record w { server = server; calls = deleted k id ∷ w.calls })
