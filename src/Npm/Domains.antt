-- ===== src/Npm/Domains.antt =====
-- `NormalizeDomains` of internal/npm/models.go.
use npmplus_docker_sync.Base.{◌||◌, List, [], ◌∷◌, if◌then◌else◌, any, is_empty}
use npmplus_docker_sync.Base.Sort.{sort_texts}
use npmplus_docker_sync.Base.Text.{Text, ◌=?◌, to_lower, trim_space, trim_suffix}

-- One domain, lower-cased and without its trailing dot.
unfoldable pub normal_domain : Text → Text
normal_domain d = trim_suffix (to_lower (trim_space d)) b'.'

-- The loop: what was seen before is left out, and so is the empty name.
unfoldable pub dedupe : List Text → List Text → List Text
dedupe seen [] = []
dedupe seen (raw ∷ ds) =
    let d = normal_domain raw in
    let skipped = dedupe seen ds in
    let taken = d ∷ dedupe (d ∷ seen) ds in
    if is_empty d || any (λ s. s =? d) seen then skipped else taken

-- `NormalizeDomains`
unfoldable pub normalize_domains : List Text → List Text
unfolding dedupe sort_texts normal_domain
normalize_domains ds = sort_texts (dedupe [] ds)
