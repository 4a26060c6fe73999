-- ===== src/Fields/Distance/Rows.antt =====
-- The row behind the bytes `ra` of one text holds the distances to the prefixes of the other.
use npmplus_docker_sync.Base.{ℕ, suc, ◌≡◌, refl, ap, ◌∙◌, List, [], ◌∷◌, length}
use npmplus_docker_sync.Base.Text.{Text}
use npmplus_docker_sync.Fields.Distance.{fill, next_row, rows, count_up, last}
use npmplus_docker_sync.Fields.Distance.Script.{distance, rev_onto}

-- The distances of `ra` to `rb` and its extensions by `b`, from the second one on. Both prefixes
-- are given backwards.
unfoldable pub beyond : Text → Text → Text → List ℕ
beyond ra rb [] = []
beyond ra rb (y ∷ b) = distance ra (y ∷ rb) ∷ beyond ra (y ∷ rb) b

unfoldable pub row : Text → Text → Text → List ℕ
row ra rb b = distance ra rb ∷ beyond ra rb b

fill-beyond :
    (x : ℕ) (ra rb b : Text)
    → fill x b (distance (x ∷ ra) rb) (distance ra rb) (beyond ra rb b) ≡ beyond (x ∷ ra) rb b
unfolding fill beyond distance
fill-beyond x ra rb [] = refl
fill-beyond x ra rb (y ∷ b) = ap (λ r. distance (x ∷ ra) (y ∷ rb) ∷ r) (fill-beyond x ra (y ∷ rb) b)

next_row-row :
    (x : ℕ) (ra b : Text) → next_row x (suc (length ra)) b (row ra [] b) ≡ row (x ∷ ra) [] b
unfolding next_row row distance
next_row-row x ra b = ap (λ r. suc (length ra) ∷ r) (fill-beyond x ra [] b)

pub rows-row : (a ra b : Text) → rows (suc (length ra)) a b (row ra [] b) ≡ row (rev_onto a ra) [] b
unfolding rows rev_onto
rows-row [] ra b = refl
rows-row (x ∷ a) ra b =
    ap (rows (suc (suc (length ra))) a b) (next_row-row x ra b) ∙ rows-row a (x ∷ ra) b

pub count_up-row : (rb b : Text) → count_up (length rb) b ≡ row [] rb b
unfolding count_up row beyond distance
count_up-row rb [] = refl
count_up-row rb (y ∷ b) = ap (λ r. length rb ∷ r) (count_up-row (y ∷ rb) b)

pub last-row : (ra rb b : Text) → last (row ra rb b) ≡ distance ra (rev_onto b rb)
unfolding last row beyond rev_onto
last-row ra rb [] = refl
last-row ra rb (y ∷ b) = last-row ra (y ∷ rb) b
