-- ===== src/Npm/Marker/Escape.antt =====
-- `url.QueryEscape` and `url.QueryUnescape`, which keep a marker's values free of blanks.
use npmplus_docker_sync.Base.{
  ℕ, ◌+◌, ◌-◌, ◌*◌, ◌/◌, ◌%◌, ◌<◌, Bool, true, false, ◌&&◌, ◌||◌, Option, none, some, [], ◌∷◌, ◌++◌,
  ◌≡◌, refl, ap, ◌∙◌, arith, leb, ltb, ◌==◌, if◌then◌else◌, Bool-cases, inl, inr, All, All-append,
}
use npmplus_docker_sync.Base.Text.{Text, is_space}

-- The bytes that stand for themselves.
unreserved : ℕ → Bool
unreserved c =
    leb b'a' c && leb c b'z'
    || (leb b'A' c && leb c b'Z'
        || (leb b'0' c && leb c b'9' || (c == b'-' || (c == b'_' || (c == b'.' || c == b'~')))))

hex_digit : ℕ → ℕ
hex_digit d = if ltb d 10 then 48 + d else 55 + d

escape_byte : ℕ → Text
unfolding unreserved hex_digit
escape_byte c =
    if unreserved c
    then c ∷ []
    else if c == b' '
    then b'+' ∷ []
    else b'%' ∷ hex_digit (c / 16) ∷ hex_digit (c % 16) ∷ []

-- `url.QueryEscape`
unfoldable pub query_escape : Text → Text
unfolding escape_byte
query_escape [] = []
query_escape (c ∷ s) = escape_byte c ++ query_escape s

is_hex : ℕ → Bool
is_hex c = leb b'0' c && leb c b'9' || (leb b'a' c && leb c b'f' || leb b'A' c && leb c b'F')

hex_value : ℕ → ℕ
hex_value c =
    if leb b'0' c && leb c b'9' then c - 48 else if leb b'a' c && leb c b'f' then c - 87 else c - 55

abbrev plain : ℕ → ℕ
plain c = if c == b'+' then b' ' else c

abbrev cons : ℕ → Option Text → Option Text
cons c none = none
cons c (some s) = some (c ∷ s)

-- `url.QueryUnescape`; `none` is its error.
unfoldable pub query_unescape : Text → Option Text
unfolding is_hex hex_value
query_unescape [] = some []
query_unescape (c ∷ []) = if c == b'%' then none else some (plain c ∷ [])
query_unescape (c ∷ a ∷ []) =
    let rest = query_unescape (a ∷ []) in if c == b'%' then none else cons (plain c) rest
query_unescape (c ∷ a ∷ b ∷ s) =
    let rest = query_unescape (a ∷ b ∷ s) in
    let coded = query_unescape s in
    if c == b'%'
    then (if is_hex a && is_hex b then cons (hex_value a * 16 + hex_value b) coded else none)
    else cons (plain c) rest

abbrev pub IsByte : ℕ → Type 0
IsByte c = c < 256

hex_value-hex_digit :
    (d : ℕ) → d < 16 → (is_hex (hex_digit d) ≡ true) × (hex_value (hex_digit d) ≡ d)
unfolding is_hex hex_value hex_digit
hex_value-hex_digit d h = ground arith

unescape_plain :
    (c : ℕ) (s : Text)
    → (c == b'%') ≡ false
    → query_unescape (c ∷ s) ≡ cons (plain c) (query_unescape s)
unfolding query_unescape
unescape_plain c [] h = ground arith
unescape_plain c (a ∷ []) h = ground arith
unescape_plain c (a ∷ b ∷ s) h = ground arith

unescape_coded :
    (h l : ℕ) (s : Text)
    → is_hex h ≡ true
    → is_hex l ≡ true
    → query_unescape (b'%' ∷ h ∷ l ∷ s) ≡ cons (hex_value h * 16 + hex_value l) (query_unescape s)
unfolding query_unescape
unescape_coded h l s p q = rw (p, q)

unreserved-plain : (c : ℕ) → unreserved c ≡ true → ((c == b'%') ≡ false) × (plain c ≡ c)
unfolding unreserved
unreserved-plain c h = ground arith

unescape-escape_byte :
    (c : ℕ) (s : Text) → IsByte c → query_unescape (escape_byte c ++ s) ≡ cons c (query_unescape s)
unfolding escape_byte
unescape-escape_byte c s h = elim (Bool-cases (unreserved c)) [
  | inl u ↦
      let (a, b) = unreserved-plain c u in
      rw (u, escape_byte) (unescape_plain c s a ∙ ap (λ d. cons d (query_unescape s)) b)
  | inr u ↦ elim (Bool-cases (c == b' ')) [
    | inl e ↦
        rw (u, e, escape_byte)
          (unescape_plain b'+' s refl ∙ ap (λ d. cons d (query_unescape s)) (ground arith))
    | inr e ↦
        let (p, p') = hex_value-hex_digit (c / 16) (omega arith) in
        let (q, q') = hex_value-hex_digit (c % 16) (omega arith) in
        rw (u, e, escape_byte)
          (unescape_coded (hex_digit (c / 16)) (hex_digit (c % 16)) s p q
            ∙ ap (λ d. cons d (query_unescape s)) (omega arith))
  ]
]

pub unescape-escape : (s : Text) → All IsByte s → query_unescape (query_escape s) ≡ some s
unfolding query_escape
unescape-escape [] h = unfold query_unescape in refl
unescape-escape (c ∷ s) h =
    unescape-escape_byte c (query_escape s) h.0 ∙ ap (cons c) (unescape-escape s h.1)

escape_byte-not-space : (c : ℕ) → IsByte c → All (λ b. is_space b ≡ false) (escape_byte c)
unfolding escape_byte is_space
escape_byte-not-space c h = ground arith

pub query_escape-not-space :
    (s : Text) → All IsByte s → All (λ b. is_space b ≡ false) (query_escape s)
unfolding query_escape
query_escape-not-space [] h = tt
query_escape-not-space (c ∷ s) h =
    All-append _ (escape_byte c) (query_escape s) (escape_byte-not-space c h.0)
      (query_escape-not-space s h.1)

-- Bytes that neither escape nor stand for a blank are read as they are.
pub unescape_verbatim :
    (s : Text) → All (λ c. ((c == b'%') || (c == b'+')) ≡ false) s → query_unescape s ≡ some s
unescape_verbatim [] h = unfold query_unescape in refl
unescape_verbatim (c ∷ s) h =
    let k = h.0 in
    unescape_plain c s (ground arith)
    ∙ rw (unescape_verbatim s h.1) (ap (λ d. some (d ∷ s)) (ground arith))
