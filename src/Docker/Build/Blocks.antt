-- ===== src/Docker/Build/Blocks.antt =====
-- The labels of the location blocks by number: the loop of `parseLocations` of
-- internal/docker/build.go.
use npmplus_docker_sync.Base.{ℕ, ◌==◌, Option, none, some, List, [], ◌∷◌, inl, inr, if◌then◌else◌}
use npmplus_docker_sync.Base.Dict.{Dict, insert}
use npmplus_docker_sync.Base.Number.{ℤ, pos, atoi}
use npmplus_docker_sync.Base.Text.{Text, cut_prefix, cut}
use npmplus_docker_sync.Docker.Checked.{Checked, ◌>>=◌, of_value, required}
use npmplus_docker_sync.Docker.FieldSet.{FieldSet, name_of}
use npmplus_docker_sync.Docker.Labels.{location_prefix, looks_like_location_block}
use npmplus_docker_sync.Fields.Types.{not_number}

-- The map from location numbers to the values of their fields.
abbrev pub Blocks : Type 0
Blocks = List (ℕ × Dict Text)

-- `groups[n][field] = v`
unfoldable put_block : ℕ → Text → Text → Blocks → Blocks
unfolding insert
put_block n field v [] = (n, insert field v []) ∷ []
put_block n field v ((m, d) ∷ bs) =
    if m == n then (m, insert field v d) ∷ bs else (m, d) ∷ put_block n field v bs

block_number : FieldSet → Text → Option ℤ → Checked ℕ
unfolding name_of
block_number f field (some (pos n)) = inr n
block_number f field _ = inl (of_value (name_of f field) (not_number field))

put_cut : FieldSet → Text → Text → Option (Text × Text) → Blocks → Checked Blocks
unfolding block_number put_block atoi name_of
put_cut f field v none bs = inl (required (name_of f field))
put_cut f field v (some (number, sub)) bs =
    block_number f field (atoi number) >>= λ n. inr (put_block n sub v bs)

-- One value: it goes to its block, or it is no field of a location.
unfoldable put_location : FieldSet → Text → Text → Option Text → Blocks → Checked Blocks
unfolding put_cut looks_like_location_block cut
put_location f field v none bs = inr bs
put_location f field v (some rest) bs =
    if looks_like_location_block field then put_cut f field v (cut rest b'.') bs else inr bs

-- The loop of `parseLocations` over the values. The order of the values is the one in which the range
-- over the map meets them.
unfoldable pub collect_blocks : FieldSet → Dict Text → Blocks → Checked Blocks
unfolding put_location cut_prefix
collect_blocks f [] bs = inr bs
collect_blocks f ((field, v) ∷ values) bs =
    put_location f field v (cut_prefix field location_prefix) bs >>= collect_blocks f values
