-- ===== src/Certs/Parsing/Laws.antt =====
-- What a parsed certificate setting holds (`ParseSpec` of internal/certs/certs.go).
use npmplus_docker_sync.Base.{
  zero, suc, ◌<◌, Bool, true, false, Option, none, some, [], ◌≡◌, ◌≢◌, refl, arith, if◌then◌else◌,
}
use mathlib.Core.Path.{subst}
use npmplus_docker_sync.Base.Number.{ℤ, pos, negsuc, atoi}
use npmplus_docker_sync.Base.Text.{Text, ◌=?◌, =?_iff, trim_space, to_lower}
use npmplus_docker_sync.Certs.Parsing.{
  plain_spec, looks_like_domain, id_spec, name_or_id, cut_name, parse_spec, one_of, auto_words,
  new_words, none_words,
}
use npmplus_docker_sync.Certs.Types.{
  Spec, Mode, auto_mode, id_mode, domain_mode, name_mode, new_mode, none_mode,
}

-- What the mode of a spec needs is there: an id, a name, a domain.
abbrev HasValue : Mode → Spec → Type 0
HasValue id_mode s = 0 < s.id
HasValue name_mode s = s.name ≢ []
HasValue domain_mode s = looks_like_domain s.domain ≡ true
HasValue _ s = Unit

-- The result of parsing, if there is one, has the value of its mode.
abbrev Parsed : Option Spec → Type 0
Parsed none = Unit
Parsed (some s) = HasValue s.mode s

named_spec-Parsed :
    (raw name : Text) (b : Bool)
    → (name =? []) ≡ b
    → Parsed (if b then none else some (record (plain_spec name_mode raw) { name = name }))
named_spec-Parsed raw name true e = tt
named_spec-Parsed raw name false e = λ h. ground (arith, =?_iff name [])

domain_spec-Parsed :
    (raw lower : Text) (b : Bool)
    → looks_like_domain lower ≡ b
    → Parsed (if b then some (record (plain_spec domain_mode raw) { domain = lower }) else none)
domain_spec-Parsed raw lower true e = e
domain_spec-Parsed raw lower false e = tt

id_spec-Parsed : (raw lower : Text) (o : Option ℤ) → Parsed (id_spec raw lower o)
id_spec-Parsed raw lower none = domain_spec-Parsed raw lower (looks_like_domain lower) refl
id_spec-Parsed raw lower (some (negsuc n)) = tt
id_spec-Parsed raw lower (some (pos zero)) = tt
id_spec-Parsed raw lower (some (pos (suc n))) = omega arith

name_or_id-Parsed : (raw lower : Text) (o : Option Text) → Parsed (name_or_id raw lower o)
name_or_id-Parsed raw lower none = id_spec-Parsed raw lower (atoi raw)
name_or_id-Parsed raw lower (some rest) =
    named_spec-Parsed raw (trim_space rest) (trim_space rest =? []) refl

words-Parsed :
    (raw : Text) (a b c : Bool) (o : Option Spec)
    → Parsed o
    → Parsed (
        if a
        then some (plain_spec auto_mode raw)
        else if b
        then some (plain_spec new_mode raw)
        else if c
        then some (plain_spec none_mode raw)
        else o)
words-Parsed raw true b c o p = tt
words-Parsed raw false true c o p = tt
words-Parsed raw false false true o p = tt
words-Parsed raw false false false o p = p

parse_spec-Parsed : (raw : Text) → Parsed (parse_spec raw)
unfolding parse_spec
parse_spec-Parsed raw =
    let trimmed = trim_space raw in
    let lower = to_lower trimmed in
    words-Parsed trimmed (one_of lower auto_words) (one_of lower new_words)
      (one_of lower none_words) (name_or_id trimmed lower (cut_name trimmed))
      (name_or_id-Parsed trimmed lower (cut_name trimmed))

-- A certificate setting that is accepted has what its mode needs: a positive id, a name that is
-- not empty, or a domain with a dot and without a blank, a slash, a backslash or a colon.
parse_spec-HasValue : (raw : Text) (s : Spec) → parse_spec raw ≡ some s → HasValue s.mode s
parse_spec-HasValue raw s h = subst Parsed h (parse_spec-Parsed raw)
