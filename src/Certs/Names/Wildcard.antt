-- ===== src/Certs/Names/Wildcard.antt =====
-- The wildcard of RFC 6125 covers exactly one label.
use npmplus_docker_sync.Base.{
  true, false, not, ◌&&◌, Option, none, some, [], ◌∷◌, ◌++◌, ◌≡◌, ◌≢◌, ◌↔◌, refl, ap, ◌∙◌, arith,
  is_empty,
}
use npmplus_docker_sync.Base.Text.{Text, text, ◌=?◌, =?_iff, cut_prefix, cut, contains_byte}
use npmplus_docker_sync.Base.Text.Laws.{cut_prefix-append, cut-append, cut_prefix_sound, cut_sound}
use npmplus_docker_sync.Certs.Names.{wildcard_match}

-- The domain is one label in front of the pattern's parent domain, which is not empty.
pub record OneLabelBelow (pattern' domain : Text) : Type 0 where
  pub label : Text
  pub parent : Text
  pub label_set : label ≢ []
  pub label_single : contains_byte label b'.' ≡ false
  pub parent_set : parent ≢ []
  pub pattern_is : pattern' ≡ text "*." ++ parent
  pub domain_is : domain ≡ label ++ (b'.' ∷ parent)

empty_sound : (s : Text) → is_empty s ≡ false → s ≢ []
empty_sound [] h e = cc
empty_sound (c ∷ s) h e = cc

empty_complete : (s : Text) → s ≢ [] → is_empty s ≡ false
empty_complete [] h = absurd (h refl)
empty_complete (c ∷ s) h = refl

below_of_parts :
    (rest d label parent : Text)
    → cut d b'.' ≡ some (label, parent)
    → (not (is_empty rest) && (not (is_empty label) && parent =? rest)) ≡ true
    → OneLabelBelow (text "*." ++ rest) d
below_of_parts rest d label parent e h = record {
  label = label;
  parent = rest;
  label_set = empty_sound label (ground arith);
  label_single = (cut_sound d b'.' label parent e).1;
  parent_set = empty_sound rest (ground arith);
  pattern_is = refl;
  domain_is = (cut_sound d b'.' label parent e).0 ∙ ap (λ r. label ++ (b'.' ∷ r)) same;
}
  where
    same : parent ≡ rest
    same = (=?_iff parent rest).0 (ground arith)

wildcard_match_of_cuts :
    (d : Text) (p : Text) (o : Option Text) (q : Option (Text × Text))
    → cut_prefix p (text "*.") ≡ o
    → cut d b'.' ≡ q
    → elim o [
      | none ↦ false
      | some rest ↦ elim q [
        | none ↦ false
        | some (label, parent) ↦ not (is_empty rest) && (not (is_empty label) && parent =? rest)
      ]
    ]
      ≡ true
    → OneLabelBelow p d
wildcard_match_of_cuts d p none q e f h = cc
wildcard_match_of_cuts d p (some rest) none e f h = cc
wildcard_match_of_cuts d p (some rest) (some (label, parent)) e f h =
    rw (cut_prefix_sound p (text "*.") rest e) (below_of_parts rest d label parent f h)

wildcard_match_sound : (p d : Text) → wildcard_match p d ≡ true → OneLabelBelow p d
unfolding wildcard_match
wildcard_match_sound p d h =
    wildcard_match_of_cuts d p (cut_prefix p (text "*.")) (cut d b'.') refl refl h

wildcard_match_complete : (p d : Text) → OneLabelBelow p d → wildcard_match p d ≡ true
unfolding wildcard_match
wildcard_match_complete p d o =
    rw (o.pattern_is, cut_prefix-append (text "*.") o.parent, wildcard_match)
      (rw (o.domain_is, cut-append o.label o.parent b'.' o.label_single)
        (ground (arith, =?_iff o.parent o.parent)))

-- A pattern of a certificate matches a domain as a wildcard exactly when it is `*.` in front of
-- a parent domain and the domain is one label below that parent.
pub wildcard_match_iff : (p d : Text) → (wildcard_match p d ≡ true) ↔ OneLabelBelow p d
wildcard_match_iff p d = (wildcard_match_sound p d, wildcard_match_complete p d)
