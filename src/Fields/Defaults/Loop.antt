-- ===== src/Fields/Defaults/Loop.antt =====
-- What the loops of `LoadDefaults` leave under the key of a field.
use npmplus_docker_sync.Base.{
  true, false, List, [], ◌∷◌, ◌≡◌, refl, sym, ap, ◌∙◌, subst, arith, In, here, there,
}
use npmplus_docker_sync.Base.Text.{Text, ◌=?◌}
use npmplus_docker_sync.Fields.Defaults.{
  Loading, key, choose_variable, env_names, load_field, load_fields, load_kinds, with_known,
}
use npmplus_docker_sync.Fields.Tables.{table}
use npmplus_docker_sync.Fields.Types.{Field}
use npmplus_docker_sync.Npm.Kind.{Kind}
use npmplus_docker_sync.Fields.Defaults.Stored.{
  found, stored, =?_sym_false, found-load_chosen_own, found-load_chosen_other,
}
use npmplus_docker_sync.Fields.Defaults.Keys.{
  other_keys, keys_apart, other_keys_of_kinds, kinds_apart, other_keys-In, other_keys_of_kinds-In,
  all_others-In,
}

module _ (getenv : Text → Text) where
  unfoldable pub chosen : Kind → Field → Text × Text
  chosen kind f = choose_variable getenv (env_names kind f) f.default

  found-load_field_other :
      (k : Text) (kind : Kind) (f : Field) (l : Loading)
      → (k =? key kind f.name) ≡ false
      → found k (load_field getenv kind f l) ≡ found k l
  unfolding load_field found chosen
  found-load_field_other k kind f l h =
      found-load_chosen_other kind f k (chosen kind f) (with_known (env_names kind f) l)
        (=?_sym_false k (key kind f.name) h)

  found-load_field_own :
      (kind : Kind) (f : Field) (l : Loading)
      → found (key kind f.name) (load_field getenv kind f l)
        ≡ stored f (chosen kind f) (found (key kind f.name) l)
  unfolding load_field found chosen
  found-load_field_own kind f l =
      found-load_chosen_own kind f (chosen kind f) (with_known (env_names kind f) l)

  found-load_fields_other :
      (k : Text) (kind : Kind) (fs : List Field) (l : Loading)
      → other_keys k kind fs ≡ true
      → found k (load_fields getenv kind fs l) ≡ found k l
  unfolding load_fields other_keys
  found-load_fields_other k kind [] l h = refl
  found-load_fields_other k kind (f ∷ fs) l h =
      found-load_fields_other k kind fs (load_field getenv kind f l) (ground arith)
      ∙ found-load_field_other k kind f l (ground arith)

  found-load_fields :
      (kind : Kind) (fs : List Field) (l : Loading) {f : Field}
      → keys_apart kind fs ≡ true
      → In f fs
      → found (key kind f.name) (load_fields getenv kind fs l)
        ≡ stored f (chosen kind f) (found (key kind f.name) l)
  unfolding load_fields keys_apart
  found-load_fields kind [] l h i = elim i [ ]
  found-load_fields kind (g ∷ fs) l h (here e) =
      subst
        (λ q.
          found (key kind q.name) (load_fields getenv kind (g ∷ fs) l)
          ≡ stored q (chosen kind q) (found (key kind q.name) l))
        e
        (found-load_fields_other (key kind g.name) kind fs (load_field getenv kind g l)
            (ground arith)
          ∙ found-load_field_own kind g l)
  found-load_fields kind (g ∷ fs) l {f = f} h (there i) =
      found-load_fields kind fs (load_field getenv kind g l) (ground arith) i
      ∙ ap (stored f (chosen kind f)) (
          found-load_field_other (key kind f.name) kind g l (
            =?_sym_false (key kind g.name) (key kind f.name)
              (other_keys-In (key kind g.name) kind fs (ground arith) i)))

  found-load_kinds_other :
      (k : Text) (ks : List Kind) (l : Loading)
      → other_keys_of_kinds k ks ≡ true
      → found k (load_kinds getenv ks l) ≡ found k l
  unfolding load_kinds other_keys_of_kinds
  found-load_kinds_other k [] l h = refl
  found-load_kinds_other k (q ∷ ks) l h =
      found-load_kinds_other k ks (load_fields getenv q (table q) l) (ground arith)
      ∙ found-load_fields_other k q (table q) l (ground arith)

  -- The keys of a list of fields are none of the kinds'.
  found-load_fields_apart :
      (k : Text) (q : Kind) (fs : List Field) (l : Loading)
      → ((g : Field) → In g fs → (key q g.name =? k) ≡ false)
      → found k (load_fields getenv q fs l) ≡ found k l
  unfolding load_fields
  found-load_fields_apart k q [] l h = refl
  found-load_fields_apart k q (g ∷ fs) l h =
      found-load_fields_apart k q fs (load_field getenv q g l) (λ x i. h x (there i))
      ∙ found-load_field_other k q g l (=?_sym_false (key q g.name) k (h g (here refl)))

  found-load_kinds_first :
      (q : Kind) (ks : List Kind) (l : Loading) {f : Field}
      → kinds_apart (q ∷ ks) ≡ true
      → In f (table q)
      → found (key q f.name) (load_kinds getenv (q ∷ ks) l)
        ≡ stored f (chosen q f) (found (key q f.name) l)
  unfolding load_kinds kinds_apart
  found-load_kinds_first q ks l {f = f} h j =
      found-load_kinds_other (key q f.name) ks (load_fields getenv q (table q) l)
        (all_others-In q (table q) ks (ground arith) j)
      ∙ found-load_fields q (table q) l (ground arith) j

  pub found-load_kinds :
      (ks : List Kind) (l : Loading) {kind : Kind} {f : Field}
      → kinds_apart ks ≡ true
      → In kind ks
      → In f (table kind)
      → found (key kind f.name) (load_kinds getenv ks l)
        ≡ stored f (chosen kind f) (found (key kind f.name) l)
  unfolding load_kinds kinds_apart
  found-load_kinds [] l h i j = elim i [ ]
  found-load_kinds (q ∷ ks) l {kind = kind} {f = f} h (here e) j =
      subst
        (λ r.
          found (key r f.name) (load_kinds getenv (q ∷ ks) l)
          ≡ stored f (chosen r f) (found (key r f.name) l))
        e (found-load_kinds_first q ks l h (subst (λ r. In f (table r)) (sym e) j))
  found-load_kinds (q ∷ ks) l {kind = kind} {f = f} h (there i) j =
      found-load_kinds ks (load_fields getenv q (table q) l) (ground arith) i j
      ∙ ap (stored f (chosen kind f)) (
          found-load_fields_apart (key kind f.name) q (table q) l (λ g m.
            other_keys_of_kinds-In (key q g.name) ks (all_others-In q (table q) ks (ground arith) m)
              i j))
