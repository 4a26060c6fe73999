-- ===== src/Syncer/Cache/Refinement.antt =====
-- The cache against its specification: a map from kinds and keys to entries that knows nothing of
-- buckets.
use npmplus_docker_sync.Base.{
  Bool, true, false, ◌&&◌, Option, none, some, List, [], ◌∷◌, ◌≡◌, refl, ◌∙◌, if◌then◌else◌,
}
use npmplus_docker_sync.Base.Dict
use npmplus_docker_sync.Base.Dict.{Dict}
use npmplus_docker_sync.Base.Text.{Text, ◌=?◌}
use npmplus_docker_sync.Npm.Kind.{Kind, proxy, redirect, stream, dead, other, equal_kind}
use npmplus_docker_sync.Syncer.Cache.{
  Entry, Cache, new_cache, bucket, replace_kind, get, set, delete,
}
use npmplus_docker_sync.Syncer.Cache.Laws.{get-replace_kind, get-set, get-delete}

-- The operations that change the cache.
pub data Operation : Type 0 where
  replace : Kind → Dict Entry → Operation
  put : Kind → Text → Entry → Operation
  remove : Kind → Text → Operation

unfoldable pub perform : Operation → Cache → Cache
perform (replace k entries) c = replace_kind k entries c
perform (put k key e) c = set k key e c
perform (remove k key) c = delete k key c

unfoldable pub perform_all : List Operation → Cache → Cache
perform_all [] c = c
perform_all (op ∷ ops) c = perform_all ops (perform op c)

-- The specification.
abbrev pub Entries : Type 0
Entries = Kind → Text → Option Entry

unfoldable pub change : Operation → Entries → Entries
change (replace k entries) m j key = if equal_kind k j then Dict.lookup key entries else m j key
change (put k key e) m j other_key =
    if equal_kind k j && key =? other_key then some e else m j other_key
change (remove k key) m j other_key =
    if equal_kind k j && key =? other_key then none else m j other_key

unfoldable pub change_all : List Operation → Entries → Entries
change_all [] m = m
change_all (op ∷ ops) m = change_all ops (change op m)

-- The cache answers every read as the map does.
abbrev pub Represents : Cache → Entries → Type 0
Represents c m = (k : Kind) (key : Text) → get k key c ≡ m k key

if_other :
    {A : Type 0} (b : Bool) (x : A) {y z : A} → y ≡ z → (if b then x else y) ≡ (if b then x else z)
if_other true x e = refl
if_other false x e = e

perform-Represents :
    (op : Operation) (c : Cache) (m : Entries)
    → Represents c m
    → Represents (perform op c) (change op m)
unfolding perform change
perform-Represents (replace k entries) c m h j key =
    get-replace_kind k j key entries c
    ∙ if_other (equal_kind k j) (Dict.lookup key entries) (h j key)
perform-Represents (put k key e) c m h j o =
    get-set k j key o e c ∙ if_other (equal_kind k j && key =? o) (some e) (h j o)
perform-Represents (remove k key) c m h j o =
    get-delete k j key o c ∙ if_other (equal_kind k j && key =? o) none (h j o)

perform_all-Represents :
    (ops : List Operation) (c : Cache) (m : Entries)
    → Represents c m
    → Represents (perform_all ops c) (change_all ops m)
unfolding perform_all change_all
perform_all-Represents [] c m h = h
perform_all-Represents (op ∷ ops) c m h =
    perform_all-Represents ops (perform op c) (change op m) (perform-Represents op c m h)

new_cache-Represents : Represents new_cache (λ k key. none)
unfolding get bucket equal_kind Dict.lookup
new_cache-Represents proxy key = refl
new_cache-Represents redirect key = refl
new_cache-Represents stream key = refl
new_cache-Represents dead key = refl
new_cache-Represents (other k) key = refl

-- Whatever operations have changed a new cache, in whatever order, it answers every read as the map
-- from kinds and keys does that the same operations have changed.
pub cache-Refines :
    (ops : List Operation) → Represents (perform_all ops new_cache) (change_all ops (λ k key. none))
cache-Refines ops = perform_all-Represents ops new_cache (λ k key. none) new_cache-Represents
