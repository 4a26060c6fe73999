-- ===== src/Syncer/Lookups.antt =====
-- The lists that the worker reads from the server once a run, and what it resolves with them:
-- certificates and access lists (internal/syncer/resolve.go).
pub mod Laws
use npmplus_docker_sync.Base.{
  ℕ, ◌==◌, ltb, Bool, true, false, not, ◌&&◌, ◌||◌, Option, none, some, List, [], ◌∷◌, ◌++◌, ◌⊎◌,
  inl, inr, if◌then◌else◌, is_empty, any,
}
use npmplus_docker_sync.Base.Dict
use npmplus_docker_sync.Base.Dict.{Dict}
use npmplus_docker_sync.Base.Text.{Text, ◌=?◌, to_lower, trim_space}
use npmplus_docker_sync.Certs.Parsing.{hash}
use npmplus_docker_sync.Certs.Selection.{resolve}
use npmplus_docker_sync.Certs.Types.{Mode, auto_mode, Certificate, Selection}
use npmplus_docker_sync.Docker.Types.{Target, domains}
use npmplus_docker_sync.Npm.Types.{
  AccessList, Location, CertificateId, new_certificate, certificate_ref,
}
use npmplus_docker_sync.Syncer.Types.{Env, Worker, Options}

-- The index of `Worker.loadAccessLists`, from what the loop has so far.
unfoldable pub index_access_lists : List AccessList → Dict ℕ → Dict ℕ
index_access_lists [] index = index
index_access_lists (l ∷ ls) index =
    index_access_lists ls (Dict.insert (to_lower (trim_space l.name)) l.id index)

abbrev add_id : Option ℕ → Text ⊎ List ℕ → Text → Text ⊎ List ℕ
add_id none rest name = inl name
add_id (some id) (inl unknown) name = inl unknown
add_id (some id) (inr ids) name = inr (id ∷ ids)

-- The function `resolve` of `Worker.resolveAccessLists`; `inl` is the unknown name.
unfoldable pub resolve_names : Dict ℕ → List Text → Text ⊎ List ℕ
resolve_names index [] = inr []
resolve_names index (name ∷ names) =
    add_id (Dict.lookup (to_lower (trim_space name)) index) (resolve_names index names) name

abbrev pub location_with : Location → List ℕ → Location
location_with l ids = record l {
  access_list_ids = l.access_list_ids ++ ids;
  access_list_names = [];
}

abbrev add_location : Location → Text ⊎ List ℕ → Text ⊎ List Location → Text ⊎ List Location
add_location l (inl unknown) rest = inl unknown
add_location l (inr ids) (inl unknown) = inl unknown
add_location l (inr ids) (inr ls) = inr (location_with l ids ∷ ls)

unfoldable pub resolve_locations : Dict ℕ → List Location → Text ⊎ List Location
resolve_locations index [] = inr []
resolve_locations index (l ∷ ls) =
    add_location l (resolve_names index l.access_list_names) (resolve_locations index ls)

abbrev pub target_with : Target → Text ⊎ List ℕ → Text ⊎ List Location → Text ⊎ Target
target_with t (inl unknown) _ = inl unknown
target_with t (inr ids) (inl unknown) = inl unknown
target_with t (inr ids) (inr ls) = inr (record t {
  access_list_ids = t.access_list_ids ++ ids;
  access_list_names = [];
  locations = ls;
})

-- `Worker.resolveAccessLists`
unfoldable pub resolve_access_lists : Dict ℕ → Target → Text ⊎ Target
unfolding resolve_names resolve_locations
resolve_access_lists index t =
    target_with t (resolve_names index t.access_list_names) (resolve_locations index t.locations)

-- `needsAccessListNames`
unfoldable pub needs_access_list_names : List Target → Bool
needs_access_list_names = any (λ t.
    not (is_empty t.access_list_names) || any (λ l. not (is_empty l.access_list_names)) t.locations)

abbrev is_auto : Mode → Bool
is_auto auto_mode = true
is_auto _ = false

module _ (E : Env) where
  -- `time.Now`
  abbrev pub clock : Worker E → ℕ × Worker E
  clock w = let (now, server) = E.now w.server in (now, record w { server = server })

  abbrev pub keep_certificates : E.Error ⊎ List Certificate → Worker E → Worker E
  keep_certificates (inl e) w = w
  keep_certificates (inr list) w = record w {
    certificates = list;
    certificate_hash = hash E.certs list;
  }

  -- `Worker.loadCertificates`
  unfoldable pub load_certificates : Worker E → Worker E
  load_certificates w =
      let (answer, server) = E.list_certificates w.server in
      keep_certificates answer (record w { server = server })

  poll : E.Error ⊎ List Certificate → Worker E → Bool × Worker E
  poll (inl e) w = (false, w)
  poll (inr list) w =
      if hash E.certs list =? w.certificate_hash
      then (false, w)
      else (true, keep_certificates (inr list) w)

  -- `Worker.PollCertificates`
  unfoldable pub poll_certificates : Worker E → Bool × Worker E
  unfolding poll
  poll_certificates w =
      let (answer, server) = E.list_certificates w.server in
      poll answer (record w { server = server })

  abbrev pub keep_access_lists : E.Error ⊎ List AccessList → Worker E → Worker E
  keep_access_lists (inl e) w = w
  keep_access_lists (inr lists) w = record w { access_lists = index_access_lists lists [] }

  -- `Worker.loadAccessLists`
  unfoldable pub load_access_lists : Bool → Worker E → Worker E
  unfolding index_access_lists
  load_access_lists false w = w
  load_access_lists true w =
      let (answer, server) = E.list_access_lists w.server in
      keep_access_lists answer (record w { server = server })

  abbrev current_certificate : Option E.Resource → ℕ
  current_certificate none = 0
  current_certificate (some r) = (E.resource_certificate r).id

  abbrev count_certificate : Selection → Worker E → Worker E
  count_certificate sel w = if ltb 0 sel.id then record w { chosen = sel.class ∷ w.chosen } else w

  -- The selection that `Worker.resolveCertificate` asks for. One reading of the clock stands for
  -- those that `best` makes.
  unfoldable pub selection_for :
      Options → Target → Option E.Resource → ℕ → List Certificate → Option Selection
  unfolding resolve
  selection_for opts t live now list =
      resolve E.certs t.certificate (domains t) list (record {
        current = current_certificate live;
        policy = opts.certificate_partial;
        now = now;
      })

  -- What `Worker.resolveCertificate` makes of the selection.
  unfoldable pub chosen :
      Options → Target → Option Selection → Worker E → Option CertificateId × Worker E
  chosen opts t none w = (none, w)
  chosen opts t (some sel) w =
      if sel.fresh
      then (some new_certificate, w)
      else if sel.id == 0
          && (is_auto t.certificate.mode
              && (opts.certificate_auto_create && not (is_empty (domains t))))
      then (some new_certificate, w)
      else (some (certificate_ref sel.id), count_certificate sel w)

  -- `Worker.resolveCertificate`; `none` is its error.
  unfoldable pub resolve_certificate :
      Options → Target → Option E.Resource → Worker E → Option CertificateId × Worker E
  unfolding chosen selection_for
  resolve_certificate opts t live w =
      let (now, w') = clock w in chosen opts t (selection_for opts t live now w'.certificates) w'
