-- ===== src/Syncer/Cache.antt =====
-- The state cache of internal/syncer/cache.go. Its lock makes each operation one step.
pub mod Laws
pub mod Refinement
use npmplus_docker_sync.Base.{
  ℕ, ◌+◌, Bool, true, false, Option, none, some, List, [], ◌∷◌, ◌≡◌, refl, arith, length,
  if◌then◌else◌, map, ap,
}
use npmplus_docker_sync.Base.Dict
use npmplus_docker_sync.Base.Dict.{Dict}
use npmplus_docker_sync.Base.Text.{Text, ◌=?◌}
use npmplus_docker_sync.Npm.Kind.{Kind, kinds, equal_kind}

-- `Entry`
pub record Entry : Type 0 where
  pub id : ℕ
  pub hash : Text
  pub container : Text
  pub index : ℕ
  pub enabled : Bool
  pub certificate : ℕ
  pub running : Bool

-- `Cache.entries`
abbrev pub Cache : Type 0
Cache = List (Kind × Dict Entry)

-- `NewCache`
abbrev pub new_cache : Cache
new_cache = map (λ k. (k, [])) kinds

-- `c.entries[kind]`, the empty map for a kind that is missing.
unfoldable pub bucket : Kind → Cache → Dict Entry
bucket k [] = []
bucket k ((j, entries) ∷ c) = if equal_kind j k then entries else bucket k c

-- `Cache.ReplaceKind`
unfoldable pub replace_kind : Kind → Dict Entry → Cache → Cache
replace_kind k entries [] = (k, entries) ∷ []
replace_kind k entries ((j, old) ∷ c) =
    if equal_kind j k then (k, entries) ∷ c else (j, old) ∷ replace_kind k entries c

-- `Cache.Get`
unfoldable pub get : Kind → Text → Cache → Option Entry
get k key c = Dict.lookup key (bucket k c)

-- `Cache.Set`
unfoldable pub set : Kind → Text → Entry → Cache → Cache
set k key entry c = replace_kind k (Dict.insert key entry (bucket k c)) c

-- `Cache.Delete`; a kind that is missing stays so.
unfoldable pub delete : Kind → Text → Cache → Cache
delete k key [] = []
delete k key ((j, entries) ∷ c) =
    if equal_kind j k then (j, Dict.erase key entries) ∷ c else (j, entries) ∷ delete k key c

-- `Cache.Len`
unfoldable pub len : Cache → ℕ
len [] = 0
len ((j, entries) ∷ c) = length entries + len c

-- `Cache.LenKind`
unfoldable len_kind : Kind → Cache → ℕ
len_kind k c = length (bucket k c)

-- `Cache.Counts`
unfoldable pub counts : Cache → List (Kind × ℕ)
counts = map (λ (k, entries). (k, length entries))
