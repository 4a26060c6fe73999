-- ===== src/Fields/Distance/Script.antt =====
-- Edit scripts, and the recursive distance, which is the length of the shortest one.
use npmplus_docker_sync.Base.{
  ℕ, suc, ltb, ◌+◌, ◌≤◌, ◌==◌, ◌≡◌, refl, ◌∙◌, subst, arith, [], ◌∷◌, ◌++◌, length, if◌then◌else◌,
  Bool, true, false, ==_iff,
}
use mathlib.Core.List.{append-nil}
use npmplus_docker_sync.Base.Text.{Text}
use npmplus_docker_sync.Fields.Distance.{min3, cost}

-- `Edits n a b`: n insertions, deletions and replacements of a byte lead from `a` to `b`.
pub data Edits : ℕ → Text → Text → Type 0 where
  done : Edits 0 [] []
  keep : {n c : ℕ} {a b : Text} → Edits n a b → Edits n (c ∷ a) (c ∷ b)
  replace : {n x y : ℕ} {a b : Text} → Edits n a b → Edits (suc n) (x ∷ a) (y ∷ b)
  put : {n y : ℕ} {a b : Text} → Edits n a b → Edits (suc n) a (y ∷ b)
  drop : {n x : ℕ} {a b : Text} → Edits n a b → Edits (suc n) (x ∷ a) b

-- The distance by recursion on both texts.
unfoldable pub distance : Text → Text → ℕ
distance [] b = length b
distance (x ∷ a) [] = suc (length a)
distance (x ∷ a) (y ∷ b) =
    min3 (distance (x ∷ a) b + 1) (distance a (y ∷ b) + 1) (distance a b + cost x y)

distance-nil : (a : Text) → distance a [] ≡ length a
unfolding distance
distance-nil [] = refl
distance-nil (x ∷ a) = refl

pub Edits-distance_le : {n : ℕ} {a b : Text} → Edits n a b → distance a b ≤ n
unfolding distance
Edits-distance_le done = omega arith
Edits-distance_le (keep e) = ground (arith, Edits-distance_le e)
Edits-distance_le (replace e) = ground (arith, Edits-distance_le e)
Edits-distance_le {a = []} (put e) = ground (arith, Edits-distance_le e)
Edits-distance_le {a = x ∷ a} (put e) = ground (arith, Edits-distance_le e)
Edits-distance_le {a = x ∷ a} {b = []} (drop e) =
    ground (arith, Edits-distance_le e, distance-nil a)
Edits-distance_le {b = y ∷ b} (drop e) = ground (arith, Edits-distance_le e)

-- The minimum is one of the three.
min3-cases : (P : ℕ → Type 0) (a b c : ℕ) → P a → P b → P c → P (min3 a b c)
min3-cases P a b c p q r = inner (ltb b a) (ltb c (if ltb b a then b else a))
  where
    inner : (t u : Bool) → P (if u then c else (if t then b else a))
    inner t true = r
    inner true false = q
    inner false false = p

added : {a b : Text} (n : ℕ) → Edits (suc n) a b → Edits (n + 1) a b
added {a = a} {b = b} n e = subst (λ m. Edits m a b) (omega arith) e

matched : {a b : Text} (n x y : ℕ) → Edits n a b → Edits (n + cost x y) (x ∷ a) (y ∷ b)
matched {a = a} {b = b} n x y e = step (x == y) refl
  where
    step : (t : Bool) → (x == y) ≡ t → Edits (n + (if t then 0 else 1)) (x ∷ a) (y ∷ b)
    step true h =
        subst (λ m. Edits m (x ∷ a) (y ∷ b)) {x = n} {y = n + 0} (omega arith)
          (subst (λ z. Edits n (x ∷ a) (z ∷ b)) ((==_iff x y).0 h) (keep e))
    step false h = added n (replace e)

all_put : (b : Text) → Edits (length b) [] b
all_put [] = done
all_put (y ∷ b) = put (all_put b)

all_dropped : (a : Text) → Edits (length a) a []
all_dropped [] = done
all_dropped (x ∷ a) = drop (all_dropped a)

-- A script of that length exists.
pub distance-Edits : (a b : Text) → Edits (distance a b) a b
unfolding distance
distance-Edits [] b = all_put b
distance-Edits (x ∷ a) [] = drop (all_dropped a)
distance-Edits (x ∷ a) (y ∷ b) =
    min3-cases (λ n. Edits n (x ∷ a) (y ∷ b)) (distance (x ∷ a) b + 1) (distance a (y ∷ b) + 1)
      (distance a b + cost x y) (added _ (put (distance-Edits (x ∷ a) b)))
      (added _ (drop (distance-Edits a (y ∷ b)))) (matched _ x y (distance-Edits a b))

-- `b` in front of which the bytes of `a` are put, one after the other.
unfoldable pub rev_onto : Text → Text → Text
rev_onto [] b = b
rev_onto (x ∷ a) b = rev_onto a (x ∷ b)

moved : {a b : Text} (n m : ℕ) → Edits (n + suc m) a b → Edits (suc n + m) a b
moved {a = a} {b = b} n m e = subst (λ k. Edits k a b) (omega arith) e

-- Two scripts, the first one backwards in front of the second.
Edits-rev_onto :
    {n m : ℕ} {a b c d : Text}
    → Edits n a b
    → Edits m c d
    → Edits (n + m) (rev_onto a c) (rev_onto b d)
unfolding rev_onto
Edits-rev_onto {m = m} {c = c} {d = d} done f = subst (λ k. Edits k c d) (omega arith) f
Edits-rev_onto (keep e) f = Edits-rev_onto e (keep f)
Edits-rev_onto {n = suc n} {m = m} (replace e) f = moved n m (Edits-rev_onto e (replace f))
Edits-rev_onto {n = suc n} {m = m} (put e) f = moved n m (Edits-rev_onto e (put f))
Edits-rev_onto {n = suc n} {m = m} (drop e) f = moved n m (Edits-rev_onto e (drop f))

rev_onto-rev_onto : (a b c : Text) → rev_onto (rev_onto a b) c ≡ rev_onto b (a ++ c)
unfolding rev_onto
rev_onto-rev_onto [] b c = refl
rev_onto-rev_onto (x ∷ a) b c = rev_onto-rev_onto a (x ∷ b) c

pub rev_onto_twice : (a : Text) → rev_onto (rev_onto a []) [] ≡ a
unfolding rev_onto
rev_onto_twice a = rev_onto-rev_onto a [] [] ∙ append-nil a

-- A script between two texts leads between the reversed ones as well.
pub Edits_reversed : {n : ℕ} {a b : Text} → Edits n a b → Edits n (rev_onto a []) (rev_onto b [])
Edits_reversed {n = n} {a = a} {b = b} e =
    subst (λ k. Edits k (rev_onto a []) (rev_onto b [])) (omega arith) (Edits-rev_onto e done)
