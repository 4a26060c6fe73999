-- ===== src/Docker/Checked/Laws.antt =====
-- What holds of the value of a chain, if it has one.
use npmplus_docker_sync.Base.{Bool, true, false, ◌≡◌, refl, inl, inr, if◌then◌else◌, subst}
use npmplus_docker_sync.Docker.Checked.{LabelError, Checked, ◌>>=◌}

-- The predicate holds of the value; an error satisfies every predicate.
pub data Ok {A : Type 0} (P : A → Type 0) : Checked A → Type 0 where
  failed : {e : LabelError} → Ok P (inl e)
  holds : {a : A} → P a → Ok P (inr a)

module _ {A : Type 0} {P : A → Type 0} where
  pub Ok->>= :
      {B : Type 0} {Q : B → Type 0} {m : Checked A} {f : A → Checked B}
      → Ok P m
      → ((a : A) → P a → Ok Q (f a))
      → Ok Q (m >>= f)
  unfolding ◌>>=◌
  Ok->>= failed k = failed
  Ok->>= (holds p) k = k _ p

  -- A test that stands before a value.
  pub Ok-if :
      (b : Bool) {m n : Checked A}
      → (b ≡ true → Ok P m)
      → (b ≡ false → Ok P n)
      → Ok P (if b then m else n)
  Ok-if true h k = h refl
  Ok-if false h k = k refl

  pub Ok-map : {Q : A → Type 0} {m : Checked A} → ((a : A) → P a → Q a) → Ok P m → Ok Q m
  Ok-map f failed = failed
  Ok-map f (holds p) = holds (f _ p)

  pub Ok_value : {a : A} (m : Checked A) → Ok P m → m ≡ inr a → P a
  Ok_value m failed e = absurd (cc)
  Ok_value m (holds p) e = subst P (cc) p

-- A step whose value does not matter.
pub Ok-skip :
    {A B : Type 0} {Q : B → Type 0} (m : Checked A) {f : A → Checked B}
    → ((a : A) → Ok Q (f a))
    → Ok Q (m >>= f)
unfolding ◌>>=◌
Ok-skip (inl e) k = failed
Ok-skip (inr a) k = k a
