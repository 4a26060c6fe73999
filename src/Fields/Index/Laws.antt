-- ===== src/Fields/Index/Laws.antt =====
-- The lookup finds a field by exactly its spellings.
use npmplus_docker_sync.Base.{
  Bool, true, false, not, ◌&&◌, some, List, [], ◌∷◌, ◌≡◌, ◌↔◌, ◌⊎◌, inl, inr, refl, subst, sym, ap,
  ◌∙◌, arith, In, here, there, if◌then◌else◌, any, &&-split,
}
use npmplus_docker_sync.Base.Dict.{Dict, insert, lookup, lookup-insert}
use npmplus_docker_sync.Base.Text.{Text, ◌=?◌, =?_iff, =?_refl}
use npmplus_docker_sync.Fields.Index.{
  spellings, insert_all, index_fields, index, lookup_field, location_index, lookup_location,
}
use npmplus_docker_sync.Fields.Names.{normalize}
use npmplus_docker_sync.Fields.Tables.{table, location_fields}
use npmplus_docker_sync.Fields.Types.{Field}
use npmplus_docker_sync.Npm.Kind.{Kind, proxy, redirect, stream, dead, other}

abbrev among : Text → List Text → Bool
among s = any (λ x. x =? s)

-- No field of the list accepts the spelling.
unused : Text → List Field → Bool
unused s [] = true
unused s (f ∷ fs) = not (among s (spellings f)) && unused s fs

all_unused : List Text → List Field → Bool
all_unused [] fs = true
all_unused (s ∷ more) fs = unused s fs && all_unused more fs

-- No two fields of the list share a spelling.
apart : List Field → Bool
apart [] = true
apart (f ∷ fs) = all_unused (spellings f) fs && apart fs

among_of_In : (s : Text) (ss : List Text) → In s ss → among s ss ≡ true
among_of_In s [] m = elim m [ ]
among_of_In s (x ∷ ss) (here e) = rw e (ground (arith, =?_refl s))
among_of_In s (x ∷ ss) (there m) = ground (arith, among_of_In s ss m)

module _ (s : Text) (f : Field) where
  lookup-insert_other :
      (x : Text) (m : Dict Field) → (x =? s) ≡ false → lookup s (insert x f m) ≡ lookup s m
  lookup-insert_other x m e = lookup-insert x s f m ∙ ground (arith, e)

  lookup-insert_all_other :
      (ss : List Text) (m : Dict Field)
      → among s ss ≡ false
      → lookup s (insert_all f ss m) ≡ lookup s m
  lookup-insert_all_other [] m h = refl
  lookup-insert_all_other (x ∷ ss) m h =
      lookup-insert_all_other ss (insert x f m) (ground arith)
      ∙ lookup-insert_other x m (ground arith)

  lookup-insert_all_kept :
      (ss : List Text) (m : Dict Field)
      → lookup s m ≡ some f
      → lookup s (insert_all f ss m) ≡ some f
  lookup-insert_all_kept [] m h = h
  lookup-insert_all_kept (x ∷ ss) m h =
      lookup-insert_all_kept ss (insert x f m) (lookup-insert x s f m ∙ kept (x =? s))
    where
      kept : (b : Bool) → (if b then some f else lookup s m) ≡ some f
      kept true = refl
      kept false = h

  lookup-insert_all_In :
      (ss : List Text) (m : Dict Field) → In s ss → lookup s (insert_all f ss m) ≡ some f
  lookup-insert_all_In [] m i = elim i [ ]
  lookup-insert_all_In (x ∷ ss) m (here e) =
      lookup-insert_all_kept ss (insert x f m) (lookup-insert x s f m ∙ rw ((=?_iff x s).1 e) refl)
  lookup-insert_all_In (x ∷ ss) m (there i) = lookup-insert_all_In ss (insert x f m) i

  -- What is looked up after the insertions was inserted or there before.
  insert_all-cases :
      (ss : List Text) (m : Dict Field) {g : Field}
      → lookup s (insert_all f ss m) ≡ some g
      → (In s ss × (f ≡ g)) ⊎ (lookup s m ≡ some g)
  insert_all-cases [] m h = inr h
  insert_all-cases (x ∷ ss) m {g} h = elim (insert_all-cases ss (insert x f m) h) [
    | inl l ↦ inl (there l.0, l.1)
    | inr r ↦ first (x =? s) refl (sym (lookup-insert x s f m) ∙ r)
  ]
    where
      first :
          (b : Bool)
          → (x =? s) ≡ b
          → (if b then some f else lookup s m) ≡ some g
          → (In s (x ∷ ss) × (f ≡ g)) ⊎ (lookup s m ≡ some g)
      first true e k = inl (here ((=?_iff x s).0 e), cc)
      first false e k = inr k

-- A spelling that no field uses is looked up as before.
lookup-index_fields-unused :
    (s : Text) (fs : List Field) (m : Dict Field)
    → unused s fs ≡ true
    → lookup s (index_fields fs m) ≡ lookup s m
unfolding index_fields unused
lookup-index_fields-unused s [] m h = refl
lookup-index_fields-unused s (f ∷ fs) m h =
    lookup-index_fields-unused s fs (insert_all f (spellings f) m) (ground arith)
    ∙ lookup-insert_all_other s f (spellings f) m (ground arith)

unused_of_In :
    (s : Text) (ss : List Text) (fs : List Field)
    → all_unused ss fs ≡ true
    → In s ss
    → unused s fs ≡ true
unfolding all_unused
unused_of_In s [] fs h i = elim i [ ]
unused_of_In s (x ∷ ss) fs h (here e) = rw (sym e) (&&-split (unused x fs) (all_unused ss fs) h).0
unused_of_In s (x ∷ ss) fs h (there i) =
    unused_of_In s ss fs (&&-split (unused x fs) (all_unused ss fs) h).1 i

lookup-index_fields_first :
    (s : Text) (f : Field) (fs : List Field) (m : Dict Field)
    → apart (f ∷ fs) ≡ true
    → In s (spellings f)
    → lookup s (index_fields fs (insert_all f (spellings f) m)) ≡ some f
unfolding apart
lookup-index_fields_first s f fs m h k =
    lookup-index_fields-unused s fs (insert_all f (spellings f) m)
      (unused_of_In s (spellings f) fs ((&&-split (all_unused (spellings f) fs) (apart fs) h).0) k)
    ∙ lookup-insert_all_In s f (spellings f) m k

module _ (s : Text) (f : Field) where
  lookup-index_fields :
      (fs : List Field) (m : Dict Field)
      → apart fs ≡ true
      → In f fs
      → In s (spellings f)
      → lookup s (index_fields fs m) ≡ some f
  unfolding index_fields apart
  lookup-index_fields [] m h i k = elim i [ ]
  lookup-index_fields (g ∷ fs) m h (here e) k =
      lookup-index_fields_first s g fs m h (subst (λ q. In s (spellings q)) (sym e) k) ∙ ap some e
  lookup-index_fields (g ∷ fs) m h (there i) k =
      lookup-index_fields fs (insert_all g (spellings g) m)
        ((&&-split (all_unused (spellings g) fs) (apart fs) h).1) i k

  index_fields-cases :
      (fs : List Field) (m : Dict Field)
      → lookup s (index_fields fs m) ≡ some f
      → (In f fs × In s (spellings f)) ⊎ (lookup s m ≡ some f)
  unfolding index_fields
  index_fields-cases [] m h = inr h
  index_fields-cases (g ∷ fs) m h = elim (index_fields-cases fs (insert_all g (spellings g) m) h) [
    | inl l ↦ inl (there l.0, l.1)
    | inr r ↦ elim (insert_all-cases s g (spellings g) m r) [
      | inl l ↦ inl (here l.1, subst (λ q. In s (spellings q)) l.1 l.0)
      | inr q ↦ inr q
    ]
  ]

  index_fields_iff :
      (fs : List Field)
      → apart fs ≡ true
      → (lookup s (index_fields fs []) ≡ some f) ↔ (In f fs × In s (spellings f))
  unfolding lookup
  index_fields_iff fs h = (
    λ e. elim (index_fields-cases fs [] e) [ inl l ↦ l | inr r ↦ absurd (cc) ],
    λ p. lookup-index_fields fs [] h p.0 p.1,
  )

location_fields-apart : apart location_fields ≡ true
unfolding apart all_unused spellings unused ◌=?◌
location_fields-apart = refl

table-apart : (kind : Kind) → apart (table kind) ≡ true
unfolding apart all_unused spellings unused ◌=?◌
table-apart proxy = refl
table-apart redirect = refl
table-apart stream = refl
table-apart dead = refl
table-apart (other k) = refl

-- A name finds a field of a kind if and only if the field stands in the table of the kind and the
-- normalised name is one of its normalised spellings. So no two fields of a kind share a spelling.
pub lookup_field_iff :
    (kind : Kind) (name : Text) (f : Field)
    → (lookup_field kind name ≡ some f) ↔ (In f (table kind) × In (normalize name) (spellings f))
unfolding lookup_field index
lookup_field_iff kind name f = index_fields_iff (normalize name) f (table kind) (table-apart kind)

-- The same of the fields of a location block.
lookup_location_iff :
    (name : Text) (f : Field)
    → (lookup_location name ≡ some f) ↔ (In f location_fields × In (normalize name) (spellings f))
unfolding lookup_location location_index
lookup_location_iff name f =
    index_fields_iff (normalize name) f location_fields location_fields-apart
