-- ===== src/Fields/Index/Suggestion.antt =====
-- The hint for a misspelled field is the closest one.
use npmplus_docker_sync.Base.{
  ℕ, ◌+◌, ◌/◌, ◌≤◌, ltb, Bool, true, false, List, [], ◌∷◌, ◌⊎◌, inl, inr, ◌≡◌, refl, sym, ap, ◌∙◌,
  subst, arith, if◌then◌else◌, is_empty, length, In, here, there, All, All-In,
}
use npmplus_docker_sync.Base.Dict.{Dict, lookup, keys}
use npmplus_docker_sync.Base.Sort.{sort_texts}
use npmplus_docker_sync.Base.Sort.Laws.{In-sort, In_sort_of_In}
use npmplus_docker_sync.Base.Text.{Text, ◌<?◌}
use npmplus_docker_sync.Fields.Distance.{levenshtein}
use npmplus_docker_sync.Fields.Index.{
  Closest, closest, name_at, suggest_normalized, suggest_from, within_budget,
}
use npmplus_docker_sync.Fields.Names.{normalize}
use npmplus_docker_sync.Fields.Types.{Field}

empty_hint : (m : Text) → [] ≡ m → is_empty m ≡ false → ⊥
empty_hint [] q k = cc
empty_hint (x ∷ m) q k = cc

module _ (candidates : Dict Field) (wanted : Text) where
  distance_to : Text → ℕ
  distance_to s = levenshtein wanted s

  -- The candidate stands among the spellings, with its distance.
  Stands : List Text → Closest → Type 0
  Stands ss r =
      (s : Text) × In s ss × (r.0 ≡ name_at (lookup s candidates)) × (r.1 ≡ levenshtein wanted s)

  -- What the loop returns: nothing is closer, and it is the first candidate or one of the spellings.
  IsClosest : List Text → Closest → Closest → Type 0
  IsClosest ss best r =
      (r.1 ≤ best.1) × All (λ s. r.1 ≤ levenshtein wanted s) ss × ((r ≡ best) ⊎ Stands ss r)

  later : (s : Text) (ss : List Text) (r : Closest) → Stands ss r → Stands (s ∷ ss) r
  unfolding Stands
  later s ss r (t, i, n, d) = (t, there i, n, d)

  closest-step :
      (s : Text) (ss : List Text) (best r : Closest) (b : Bool)
      → ltb (levenshtein wanted s) best.1 ≡ b
      → IsClosest ss (if b then (name_at (lookup s candidates), levenshtein wanted s) else best) r
      → IsClosest (s ∷ ss) best r
  unfolding IsClosest Stands
  closest-step s ss best r true e (le, all, or) = (
    ground arith,
    (le, all),
    elim or [
      | inl q ↦ inr (s, here refl, ap (λ x. x.0) q, ap (λ x. x.1) q)
      | inr w ↦ inr (later s ss r w)
    ],
  )
  closest-step s ss best r false e (le, all, or) =
      (le, (ground arith, all), elim or [ inl q ↦ inl q | inr w ↦ inr (later s ss r w) ])

  closest-IsClosest :
      (ss : List Text) (best : Closest) → IsClosest ss best (closest candidates wanted ss best)
  unfolding closest IsClosest
  closest-IsClosest [] best = (omega arith, tt, inl refl)
  closest-IsClosest (s ∷ ss) best =
      closest-step s ss best _ (ltb (levenshtein wanted s) best.1) refl (closest-IsClosest ss _)

  -- The candidates are sorted before the loop, which loses none.
  unfoldable pub Suggested : Text → Type 0
  Suggested name =
      (s : Text) × In s (keys candidates)
      × (name ≡ name_at (lookup s candidates))
      × (levenshtein wanted s ≤ length wanted / 4 + 1)
      × ((t : Text) → In t (keys candidates) → levenshtein wanted s ≤ levenshtein wanted t)

  sorted : List Text
  sorted = sort_texts (keys candidates)

  Suggested-of_closest :
      (budget : ℕ) (r : Closest) (name : Text)
      → budget ≡ length wanted / 4 + 1
      → IsClosest sorted ([], budget + 1) r
      → within_budget budget r ≡ name
      → is_empty name ≡ false
      → Suggested name
  unfolding IsClosest Stands Suggested sorted sort_texts
  Suggested-of_closest budget r name e (le, all, or) h n = step (ltb budget r.1) refl h or
    where
      found :
          ltb budget r.1 ≡ false
          → r.0 ≡ name
          → (r ≡ ([], budget + 1)) ⊎ Stands sorted r
          → Suggested name
      found f g (inl q) = absurd (ground (arith, f, ap (λ x. x.1) q))
      found f g (inr (s, i, nm, d)) = (
        s,
        In-sort ◌<?◌ (keys candidates) i,
        sym g ∙ nm,
        ground (arith, f, d, e),
        λ t j.
            subst (λ m. m ≤ levenshtein wanted t) d
              (All-In (λ u. r.1 ≤ levenshtein wanted u) sorted all
                (In_sort_of_In ◌<?◌ (keys candidates) j)),
      )

      step :
          (b : Bool)
          → ltb budget r.1 ≡ b
          → (if b then [] else r.0) ≡ name
          → (r ≡ ([], budget + 1)) ⊎ Stands sorted r
          → Suggested name
      step true f g o = absurd (empty_hint name g n)
      step false f g o = found f g o

normalized-Suggested :
    (candidates : Dict Field) (wanted hint : Text)
    → suggest_normalized candidates wanted ≡ hint
    → is_empty hint ≡ false
    → Suggested candidates wanted hint
unfolding suggest_normalized sorted
normalized-Suggested candidates wanted hint h e =
    Suggested-of_closest candidates wanted (length wanted / 4 + 1) _ hint refl
      (closest-IsClosest candidates wanted (sorted candidates wanted)
        ([], length wanted / 4 + 1 + 1))
      h e

-- A hint names the field of a spelling whose edit distance to the normalised name is at most one
-- quarter of its length and one, and no spelling is closer.
pub suggest_from-Suggested :
    (candidates : Dict Field) (name hint : Text)
    → suggest_from candidates name ≡ hint
    → is_empty hint ≡ false
    → Suggested candidates (normalize name) hint
unfolding suggest_from
suggest_from-Suggested candidates name hint h e = step (is_empty (normalize name)) h
  where
    step :
        (b : Bool)
        → (if b then [] else suggest_normalized candidates (normalize name)) ≡ hint
        → Suggested candidates (normalize name) hint
    step true g = absurd (empty_hint hint g e)
    step false g = normalized-Suggested candidates (normalize name) hint g e
