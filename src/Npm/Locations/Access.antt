-- ===== src/Npm/Locations/Access.antt =====
-- Access lists: `normalizeIDs` and `ProxyHost.accessLists` of internal/npm/resources.go. An id is
-- a natural number; the placeholder is 0.
pub mod Laws
use npmplus_docker_sync.Base.{
  ℕ, ◌==◌, ltb, Bool, not, ◌&&◌, ◌||◌, List, [], ◌∷◌, if◌then◌else◌, is_empty, any,
}
use npmplus_docker_sync.Base.Sort.{sort}
use npmplus_docker_sync.Base.Text.{Text, text, ◌=?◌}

-- `AccessListCustom`, `AccessListPublic` and `AccessListGlobal`
abbrev pub access_list_custom : Text
access_list_custom = text "custom"

abbrev pub access_list_public : Text
access_list_public = text "public"

abbrev pub access_list_global : Text
access_list_global = text "global"

-- The loop: the placeholder and what was seen before are left out.
unfoldable pub distinct_ids : List ℕ → List ℕ → List ℕ
distinct_ids seen [] = []
distinct_ids seen (id ∷ ids) =
    let skipped = distinct_ids seen ids in
    let taken = id ∷ distinct_ids (id ∷ seen) ids in
    if id == 0 || any (λ s. s == id) seen then skipped else taken

-- `normalizeIDs`
unfoldable pub normalize_ids : List ℕ → List ℕ
unfolding distinct_ids sort
normalize_ids ids = sort ltb (distinct_ids [] ids)

-- The `switch` of `ProxyHost.accessLists`.
unfoldable pub lists_of_type : List ℕ → Text → List ℕ × Text
lists_of_type ids list_type =
    if is_empty list_type && not (is_empty ids)
    then (ids, access_list_custom)
    else if is_empty list_type
    then (ids, access_list_public)
    else if list_type =? access_list_public
    then ([], list_type)
    else (ids, list_type)

-- `ProxyHost.accessLists`, from the fields AccessListIDs, AccessListID and AccessListType.
unfoldable pub access_lists : List ℕ → ℕ → Text → List ℕ × Text
unfolding normalize_ids lists_of_type
access_lists ids id list_type =
    let normal = normalize_ids ids in
    lists_of_type (if is_empty normal && ltb 0 id then id ∷ [] else normal) list_type
