-- ===== src/Fields/Distance/Laws.antt =====
-- `levenshtein` is the length of a shortest edit script.
use npmplus_docker_sync.Base.{
  ℕ, ◌≤◌, ◌≡◌, refl, sym, ap, ◌∙◌, subst, arith, Bool, true, false, [], ◌∷◌, if◌then◌else◌,
}
use npmplus_docker_sync.Base.Text.{Text, ◌=?◌, =?_iff}
use npmplus_docker_sync.Fields.Distance.{levenshtein, rows, count_up, last}
use npmplus_docker_sync.Fields.Distance.Rows.{rows-row, count_up-row, last-row}
use npmplus_docker_sync.Fields.Distance.Script.{
  Edits, done, keep, distance, distance-Edits, Edits-distance_le, Edits_reversed, rev_onto,
  rev_onto_twice,
}

-- The number of edits is enough, and no script has fewer.
abbrev pub IsLeast : ℕ → Text → Text → Type 0
IsLeast d a b = Edits d a b × ((n : ℕ) → Edits n a b → d ≤ n)

last-rows :
    (a b : Text) → last (rows 1 a b (count_up 0 b)) ≡ distance (rev_onto a []) (rev_onto b [])
last-rows a b =
    ap (λ r. last (rows 1 a b r)) (count_up-row [] b)
    ∙ ap last (rows-row a [] b)
    ∙ last-row (rev_onto a []) [] b

back : {n : ℕ} {a b : Text} → Edits n (rev_onto a []) (rev_onto b []) → Edits n a b
back {n = n} {a = a} {b = b} e =
    subst (λ t. Edits n t b) (rev_onto_twice a)
      (subst (λ t. Edits n (rev_onto (rev_onto a []) []) t) (rev_onto_twice b) (Edits_reversed e))

rows-IsLeast : (a b : Text) → IsLeast (last (rows 1 a b (count_up 0 b))) a b
rows-IsLeast a b =
    subst (λ d. IsLeast d a b) (sym (last-rows a b))
      (
        back (distance-Edits (rev_onto a []) (rev_onto b [])),
        λ n e. Edits-distance_le (Edits_reversed e),
      )

none_needed : (a : Text) → Edits 0 a a
none_needed [] = done
none_needed (x ∷ a) = keep (none_needed a)

-- The rows give the least number of insertions, deletions and replacements of bytes that lead from
-- one text to the other: there is a script with that many, and every script has at least as many.
pub levenshtein-IsLeast : (a b : Text) → IsLeast (levenshtein a b) a b
unfolding levenshtein
levenshtein-IsLeast a b = step (a =? b) refl
  where
    step :
        (t : Bool) → (a =? b) ≡ t → IsLeast (if t then 0 else last (rows 1 a b (count_up 0 b))) a b
    step true e = (subst (λ c. Edits 0 a c) ((=?_iff a b).0 e) (none_needed a), λ n s. omega arith)
    step false e = rows-IsLeast a b
