-- ===== src/Docker/Build/Access.antt =====
-- The access lists of a host or a location: `parseAccessList` of internal/docker/build.go.
use npmplus_docker_sync.Base.{
  ℕ, zero, suc, not, ◌&&◌, Option, none, some, List, [], ◌∷◌, ◌++◌, inl, inr, if◌then◌else◌,
  is_empty,
}
use npmplus_docker_sync.Base.Number.{ℤ, pos, negsuc, atoi}
use npmplus_docker_sync.Base.Text.{Text, ◌=?◌, to_lower}
use npmplus_docker_sync.Docker.Checked.{
  Checked, ◌>>=◌, list_id_not_positive, list_required, only_in_locations, unknown_list_type,
}
use npmplus_docker_sync.Docker.FieldSet.{FieldSet, string, source, name_of, split_list}
use npmplus_docker_sync.Fields.Shared.Constants.{name_access_list, name_access_list_type}
use npmplus_docker_sync.Npm.Locations.Access.{
  access_list_public, access_list_custom, access_list_global,
}

-- The ids, the names and the type.
pub record AccessSetting : Type 0 where
  pub ids : List ℕ
  pub names : List Text
  pub list_type : Text

-- What one value adds: an id that is at least 1, or a name.
list_entry : Text → Text → Option ℤ → Checked (List ℕ × List Text)
list_entry src v none = inr ([], v ∷ [])
list_entry src v (some (pos zero)) = inl (list_id_not_positive src (pos 0))
list_entry src v (some (pos (suc n))) = inr (suc n ∷ [], [])
list_entry src v (some (negsuc n)) = inl (list_id_not_positive src (negsuc n))

abbrev first_error : {A B : Type 0} → Checked A → Checked B → (A → B → Checked B) → Checked B
first_error (inl e) rest f = inl e
first_error (inr a) rest f = rest >>= f a

-- The loop over the values: those that are numbers, and those that are names. The first error
-- counts.
unfoldable split_entries : Text → List Text → Checked (List ℕ × List Text)
unfolding list_entry atoi
split_entries src [] = inr ([], [])
split_entries src (v ∷ vs) =
    let rest = split_entries src vs in
    first_error (list_entry src v (atoi v)) rest (λ one r. inr (one.0 ++ r.0, one.1 ++ r.1))

abbrev no_lists : Text → AccessSetting
no_lists t = record { ids = []; names = []; list_type = t }

-- The switch on the type.
unfoldable list_of_type : FieldSet → Text → Text → List ℕ × List Text → Checked AccessSetting
unfolding name_of ◌=?◌
list_of_type f default t (ids, names) =
    let given = not (is_empty ids && is_empty names) in
    if is_empty t
    then inr (record {
      ids = ids;
      names = names;
      list_type = if given then access_list_custom else default;
    })
    else if t =? access_list_public
    then inr (no_lists t)
    else if t =? access_list_custom
    then (if given
        then inr (record { ids = ids; names = names; list_type = t })
        else inl (list_required (name_of f name_access_list_type)))
    else if t =? access_list_global
    then (if default =? access_list_global
        then inr (no_lists t)
        else inl (only_in_locations (name_of f name_access_list_type)))
    else inl (unknown_list_type (name_of f name_access_list_type) t)

-- `parseAccessList`
unfoldable pub parse_access_list : FieldSet → Text → Checked AccessSetting
unfolding split_entries list_of_type split_list string source to_lower
parse_access_list f default =
    split_entries (source f name_access_list) (split_list (string f name_access_list))
    >>= list_of_type f default (to_lower (string f name_access_list_type))
