-- ===== src/Fields/Names.antt =====
-- The spelling of a label name: `normalize` of internal/fields/fields.go.
pub mod Laws
use npmplus_docker_sync.Base.{ℕ, ◌==◌, Bool, ◌||◌, List, [], ◌∷◌, if◌then◌else◌, is_empty, map}
use npmplus_docker_sync.Base.Text.{Text, to_lower, trim_space, split, join}

-- The replacer for one byte.
abbrev pub separator_byte : ℕ → ℕ
separator_byte c = if c == b'_' || c == b'-' then b'.' else c

unfoldable pub replace_separators : Text → Text
replace_separators [] = []
replace_separators (c ∷ s) = separator_byte c ∷ replace_separators s

-- The segments, trimmed, without those that are blank.
unfoldable pub segments : List Text → List Text
unfolding trim_space
segments [] = []
segments (p ∷ ps) =
    let rest = segments ps in let part = trim_space p in if is_empty part then rest else part ∷ rest

-- `strings.Split` of the folded name, trimmed.
unfoldable pub parts_of : Text → List Text
unfolding to_lower replace_separators split segments
parts_of name = segments (split (replace_separators (to_lower name)) b'.')

-- `normalize`
unfoldable pub normalize : Text → Text
unfolding parts_of join
normalize name = join (parts_of name) b'.'
