-- ===== src/Tests/Locations.antt =====
-- Location blocks at concrete inputs (internal/npm/models.go, internal/npm/resources.go).
use npmplus_docker_sync.Base.{ℕ, true, false, none, List, [], ◌∷◌, ◌≡◌, refl, here, there, map}
use npmplus_docker_sync.Base.Sort.{insert_sorted, sort}
use npmplus_docker_sync.Base.Text.{text, ◌=?◌, to_lower, trim_space}
use npmplus_docker_sync.Npm.Locations.{
  clean_forward_options, clean_scheme, clean_crowdsec, clean_auth, scheme_or_http, may_buffer,
  may_compress, may_index, has_auth, canonical_locations,
}
use npmplus_docker_sync.Npm.Locations.Access.{
  distinct_ids, normalize_ids, access_lists, lists_of_type,
}
use npmplus_docker_sync.Npm.Locations.Access.Laws.{Within}
use npmplus_docker_sync.Npm.Locations.Laws.{
  empty, next, canonical_locations-clean, canonical_locations-Alike,
}
use npmplus_docker_sync.Npm.Types.{Location}

-- A directory that is served with switches that only a proxied location has.
abbrev files : Location
files = record {
  path = text "/files";
  location_type = [];
  advanced_config = [];
  location_config = [];
  forward_scheme = text "path";
  forward_host = text "/srv/files";
  forward_port = 0;
  access_list_ids = 3 ∷ 7 ∷ [];
  access_list_type = [];
  access_list_names = [];
  enabled = none;
  no_index = false;
  disable_crowdsec_appsec = true;
  disable_request_buffering = true;
  disable_response_buffering = false;
  upstream_compression = true;
  fancy_index = true;
  x_frame_options = [];
  auth_request = text "none";
  auth_request_upstream = text "http://auth";
}

abbrev cleaned : Location
cleaned = record files {
  disable_request_buffering = false;
  upstream_compression = false;
  auth_request_upstream = [];
}

files-cleaned : clean_forward_options files ≡ cleaned
unfolding clean_forward_options clean_scheme clean_crowdsec clean_auth scheme_or_http may_buffer
    may_compress may_index has_auth ◌=?◌ to_lower trim_space
files-cleaned = refl

canonical_locations-clean_example :
    canonical_locations (map clean_forward_options (files ∷ [])) ≡ canonical_locations (files ∷ [])
canonical_locations-clean_example = canonical_locations-clean (files ∷ [])

in_order : normalize_ids (7 ∷ 0 ∷ 3 ∷ 7 ∷ []) ≡ 3 ∷ 7 ∷ []
unfolding normalize_ids distinct_ids sort insert_sorted
in_order = refl

no_lists : access_lists (7 ∷ []) 3 (text "public") ≡ ([], text "public")
unfolding access_lists lists_of_type ◌=?◌
no_lists = refl

abbrev shuffled : List ℕ
shuffled = 7 ∷ 3 ∷ 7 ∷ []

shuffled-Within : Within shuffled (3 ∷ 7 ∷ [])
shuffled-Within x (here e) = there (here e)
shuffled-Within x (there (here e)) = here e
shuffled-Within x (there (there (here e))) = there (here e)
shuffled-Within x (there (there (there m))) = elim m [ ]

Within-shuffled : Within (3 ∷ 7 ∷ []) shuffled
Within-shuffled x (here e) = there (here e)
Within-shuffled x (there (here e)) = here e
Within-shuffled x (there (there m)) = elim m [ ]

canonical_locations-Alike_example :
    canonical_locations (record files { access_list_ids = shuffled } ∷ [])
    ≡ canonical_locations (files ∷ [])
canonical_locations-Alike_example =
    canonical_locations-Alike (record files { access_list_ids = shuffled } ∷ []) (files ∷ [])
      (next files shuffled shuffled-Within Within-shuffled empty)
