-- ===== src/Fields/Defaults/Stored.antt =====
-- What one field leaves in the defaults, under its own key and under the others.
use npmplus_docker_sync.Base.{
  Bool, true, false, Option, some, ◌≡◌, ◌⊎◌, inl, inr, refl, arith, if◌then◌else◌,
}
use npmplus_docker_sync.Base.Dict.{lookup, lookup-insert_self, lookup-insert_other}
use npmplus_docker_sync.Base.Text.{Text, ◌=?◌, =?_iff, =?_refl}
use npmplus_docker_sync.Fields.Defaults.{
  Loading, builtin, key, load_chosen, store, store_parsed, value,
}
use npmplus_docker_sync.Fields.Types.{Field, ValueError, parse}
use npmplus_docker_sync.Npm.Kind.{Kind}

abbrev Found : Type 0
Found = Option Text × Option Text

-- What is stored under a key.
unfoldable pub found : Text → Loading → Found
found k l = (lookup k l.loaded.values, lookup k l.loaded.source)

-- What the loop stores of a field, or what was there before an invalid value.
unfoldable pub stored_parsed : Text → ValueError ⊎ Text → Found → Found
stored_parsed source (inl e) before = before
stored_parsed source (inr value) before = (some value, some source)

unfoldable pub stored : Field → Text × Text → Found → Found
stored f (value, source) before =
    if source =? builtin
    then (some value, some source)
    else stored_parsed source (parse f value) before

pub =?_sym_false : (a b : Text) → (a =? b) ≡ false → (b =? a) ≡ false
=?_sym_false a b h = step (b =? a) refl
  where
    step : (t : Bool) → (b =? a) ≡ t → t ≡ false
    step true e = absurd (ground (arith, (=?_iff b a).0 e, =?_refl a, h, e))
    step false e = refl

both : {a b c d : Option Text} → a ≡ b → c ≡ d → ◌≡◌ {A = Found} (a, c) (b, d)
both p q = rw p (rw q refl)

module _ (kind : Kind) (f : Field) (v s : Text) (l : Loading) where
  found-store_own : found (key kind f.name) (store kind f v s l) ≡ (some v, some s)
  unfolding found
  found-store_own =
      both (lookup-insert_self (key kind f.name) v l.loaded.values)
        (lookup-insert_self (key kind f.name) s l.loaded.source)

  found-store_other :
      (k : Text) → (key kind f.name =? k) ≡ false → found k (store kind f v s l) ≡ found k l
  unfolding found
  found-store_other k h =
      both (lookup-insert_other (key kind f.name) k v l.loaded.values h)
        (lookup-insert_other (key kind f.name) k s l.loaded.source h)

module _ (kind : Kind) (f : Field) where
  pub found-load_chosen_own :
      (c : Text × Text) (l : Loading)
      → found (key kind f.name) (load_chosen kind f c l) ≡ stored f c (found (key kind f.name) l)
  unfolding stored stored_parsed
  found-load_chosen_own (v, source) l = step (source =? builtin) (parse f v)
    where
      step :
          (b : Bool) (r : ValueError ⊎ Text)
          → found
              (key kind f.name)
              (if b then store kind f v source l else store_parsed kind f source r l)
            ≡ (if b
                then (some v, some source)
                else stored_parsed source r (found (key kind f.name) l))
      step true r = found-store_own kind f v source l
      step false (inl e) = unfold found in refl
      step false (inr w) = found-store_own kind f w source l

  pub found-load_chosen_other :
      (k : Text) (c : Text × Text) (l : Loading)
      → (key kind f.name =? k) ≡ false
      → found k (load_chosen kind f c l) ≡ found k l
  found-load_chosen_other k (v, source) l h = step (source =? builtin) (parse f v)
    where
      step :
          (b : Bool) (r : ValueError ⊎ Text)
          → found k (if b then store kind f v source l else store_parsed kind f source r l)
            ≡ found k l
      step true r = found-store_other kind f v source l k h
      step false (inl e) = unfold found in refl
      step false (inr w) = found-store_other kind f w source l k h
