-- ===== src/Npm/Locations/Laws.antt =====
-- What the fingerprint of a location does not see: switches that have no effect, and the order of
-- the access lists.
use npmplus_docker_sync.Base.{
  ℕ, Bool, true, false, ◌&&◌, List, [], ◌∷◌, ◌≡◌, refl, sym, ◌⊎◌, inl, inr, map, arith,
  if◌then◌else◌, is_empty, here,
}
use npmplus_docker_sync.Base.Text.{Text}
use npmplus_docker_sync.Npm.Locations.{
  clean_forward_options, clean_scheme, clean_crowdsec, clean_auth, scheme_or_http, may_buffer,
  may_compress, may_index, has_auth, canonical_location, canonical_locations, access_list_type,
}
use npmplus_docker_sync.Npm.Locations.Access.Laws.{Within, normalize_ids_same}
use npmplus_docker_sync.Npm.Types.{Location}

-- The rules that NPMplus enforces: no switch is on that has no effect.
abbrev IsAccepted : Location → Type 0
IsAccepted l =
    let scheme = scheme_or_http l.forward_scheme in
    (l.disable_request_buffering ≡ true
      → (l.disable_crowdsec_appsec ≡ true) × (may_buffer scheme ≡ true))
    × (l.disable_response_buffering ≡ true → may_buffer scheme ≡ true)
    × (l.upstream_compression ≡ true → may_compress scheme ≡ true)
    × (l.fancy_index ≡ true → may_index scheme ≡ true)
    × ((l.auth_request_upstream ≡ []) ⊎ (has_auth l.auth_request ≡ true))

both : (a b c : Bool) → ((a && b) && c) ≡ true → (c ≡ true) × (b ≡ true)
both true true c h = (h, refl)
both true false c h = ground arith
both false b c h = ground arith

right : (a b : Bool) → (a && b) ≡ true → b ≡ true
right true b h = h
right false b h = ground arith

kept : (b : Bool) (t : Text) → ((if b then t else []) ≡ []) ⊎ (b ≡ true)
kept true t = inr refl
kept false t = inl refl

clean_forward_options-IsAccepted : (l : Location) → IsAccepted (clean_forward_options l)
unfolding clean_forward_options clean_scheme clean_crowdsec clean_auth
clean_forward_options-IsAccepted l =
    let scheme = scheme_or_http l.forward_scheme in
    (
      both l.disable_request_buffering (may_buffer scheme) l.disable_crowdsec_appsec,
      right l.disable_response_buffering (may_buffer scheme),
      right l.upstream_compression (may_compress scheme),
      right l.fancy_index (may_index scheme),
      kept (has_auth l.auth_request) l.auth_request_upstream,
    )

stays : (a b : Bool) → (a ≡ true → b ≡ true) → (a && b) ≡ a
stays true b h = h refl
stays false b h = refl

stays_both : (a b c : Bool) → (a ≡ true → (c ≡ true) × (b ≡ true)) → ((a && b) && c) ≡ a
stays_both true b c h = let r = h refl in rw (r.0, r.1) refl
stays_both false b c h = refl

stays_kept : (b : Bool) (t : Text) → (t ≡ []) ⊎ (b ≡ true) → (if b then t else []) ≡ t
stays_kept true t h = refl
stays_kept false t (inl e) = sym e
stays_kept false t (inr e) = ground arith

with_switches : Location → Bool → Bool → Bool → Bool → Text → Location
with_switches l request response compression index upstream = record l {
  disable_request_buffering = request;
  disable_response_buffering = response;
  upstream_compression = compression;
  fancy_index = index;
  auth_request_upstream = upstream;
}

-- What a server accepts is left as it is.
clean-accepted : (l : Location) → IsAccepted l → clean_forward_options l ≡ l
unfolding clean_forward_options clean_scheme clean_crowdsec clean_auth with_switches
clean-accepted l h =
    let scheme = scheme_or_http l.forward_scheme in
    let a =
      stays_both l.disable_request_buffering (may_buffer scheme) l.disable_crowdsec_appsec h.0 in
    let b = stays l.disable_response_buffering (may_buffer scheme) h.1 in
    let c = stays l.upstream_compression (may_compress scheme) h.2 in
    let d = stays l.fancy_index (may_index scheme) h.3 in
    let e = stays_kept (has_auth l.auth_request) l.auth_request_upstream h.4 in
    λ i. with_switches l (a i) (b i) (c i) (d i) (e i)

clean_forward_options_idem :
    (l : Location) → clean_forward_options (clean_forward_options l) ≡ clean_forward_options l
clean_forward_options_idem l =
    clean-accepted (clean_forward_options l) (clean_forward_options-IsAccepted l)

-- Locations have the same canonical form, which the fingerprint is made of, before and after the
-- switches that have no effect are cleared.
pub canonical_locations-clean :
    (ls : List Location)
    → canonical_locations (map clean_forward_options ls) ≡ canonical_locations ls
unfolding canonical_locations
canonical_locations-clean [] = refl
canonical_locations-clean (l ∷ ls) =
    λ i. canonical_location (clean_forward_options_idem l i) ∷ canonical_locations-clean ls i

-- Location by location the same, but for the order and the repetitions of the access lists.
pub data Alike : List Location → List Location → Type 0 where
  empty : Alike [] []
  next :
      (l : Location) (ids : List ℕ) {ls ms : List Location}
      → Within ids l.access_list_ids
      → Within l.access_list_ids ids
      → Alike ls ms
      → Alike (record l { access_list_ids = ids } ∷ ls) (l ∷ ms)

is_empty_same :
    (ids others : List ℕ) → Within ids others → Within others ids → is_empty ids ≡ is_empty others
is_empty_same [] [] f g = refl
is_empty_same [] (y ∷ ys) f g = elim (g y (here refl)) [ ]
is_empty_same (x ∷ xs) [] f g = elim (f x (here refl)) [ ]
is_empty_same (x ∷ xs) (y ∷ ys) f g = refl

canonical_same :
    (l : Location) (ids : List ℕ)
    → Within ids l.access_list_ids
    → Within l.access_list_ids ids
    → canonical_location (clean_forward_options (record l { access_list_ids = ids }))
      ≡ canonical_location (clean_forward_options l)
unfolding canonical_location access_list_type clean_forward_options clean_scheme clean_crowdsec
    clean_auth
canonical_same l ids f g =
    rw (is_empty_same ids l.access_list_ids f g, normalize_ids_same ids l.access_list_ids f g) refl

-- Lists of locations that differ only in the order and the repetitions of their access lists have
-- the same canonical_location form.
pub canonical_locations-Alike :
    (ls ms : List Location) → Alike ls ms → canonical_locations ls ≡ canonical_locations ms
unfolding canonical_locations
canonical_locations-Alike ls ms empty = refl
canonical_locations-Alike ls ms (next l ids f g h) =
    λ i. canonical_same l ids f g i ∷ canonical_locations-Alike _ _ h i
