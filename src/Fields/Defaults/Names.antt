-- ===== src/Fields/Defaults/Names.antt =====
-- The order of the variables of a field (`EnvNames` of internal/fields/defaults.go) and the first one
-- that is set.
use mathlib.Core.List.{append-nil, append_assoc}
use npmplus_docker_sync.Base.{
  true, false, ◌||◌, List, [], ◌∷◌, ◌++◌, ◌≡◌, refl, sym, ap, ◌∙◌, inl, inr, if◌then◌else◌, All,
  is_empty, Bool-cases, map, subst,
}
use npmplus_docker_sync.Base.Text.{Text, ◌=?◌, =?_iff, trim_space}
use npmplus_docker_sync.Fields.Defaults.{
  builtin, choose_variable, env_names, env_name, env_default_prefix, kind_prefix, member, add_name,
  add_names,
}
use npmplus_docker_sync.Fields.Types.{Field}
use npmplus_docker_sync.Npm.Kind.{Kind}

-- What a field gets from the environment: the built-in default where none of the variables is set, and
-- otherwise the value, without blanks around it, and the name of a variable in front of which none is.
pub data FirstSet (getenv : Text → Text) (names : List Text) (default : Text)
    : Text × Text → Type 0 where
  none_set :
      All (λ name. trim_space (getenv name) ≡ []) names
      → FirstSet getenv names default (default, builtin)
  first_set :
      (before : List Text) (name : Text) (behind : List Text)
      → names ≡ before ++ (name ∷ behind)
      → All (λ other. trim_space (getenv other) ≡ []) before
      → is_empty (trim_space (getenv name)) ≡ false
      → FirstSet getenv names default (trim_space (getenv name), name)

-- The names of all variables that may set a field: its name and its aliases behind the prefix of the
-- kind, and then behind the one for all kinds.
abbrev pub variables : Kind → Field → List Text
variables kind f =
    let spelled = f.name ∷ f.aliases in
    map (env_name (kind_prefix kind)) spelled ++ map (env_name env_default_prefix) spelled

chosen_later :
    {getenv : Text → Text} {names : List Text} {default : Text} {c : Text × Text} (name : Text)
    → trim_space (getenv name) ≡ []
    → FirstSet getenv names default c
    → FirstSet getenv (name ∷ names) default c
chosen_later name e (none_set h) = none_set (e, h)
chosen_later name e (first_set before other behind g h k) =
    first_set (name ∷ before) other behind (ap (λ ns. name ∷ ns) g) (e, h) k

empty_nil : (s : Text) → is_empty s ≡ true → s ≡ []
empty_nil [] h = refl
empty_nil (c ∷ s) h = absurd (cc)

module _ (getenv : Text → Text) (default : Text) where
  choose_variable-FirstSet :
      (names : List Text) → FirstSet getenv names default (choose_variable getenv names default)
  unfolding choose_variable
  choose_variable-FirstSet [] = none_set tt
  choose_variable-FirstSet (name ∷ names) =
      elim (Bool-cases (is_empty (trim_space (getenv name)))) [
        | inl e ↦ rw e (
            chosen_later name (empty_nil (trim_space (getenv name)) e)
              (choose_variable-FirstSet names))
        | inr e ↦ rw e (first_set [] name names refl tt e)
      ]

  abbrev choose : List Text → Text × Text
  choose names = choose_variable getenv names default

  choose-cons :
      (x : Text) (xs ys : List Text) → choose xs ≡ choose ys → choose (x ∷ xs) ≡ choose (x ∷ ys)
  unfolding choose_variable
  choose-cons x xs ys h =
      ap (λ c. if is_empty (trim_space (getenv x)) then c else (trim_space (getenv x), x)) h

  -- A variable that is not set may be left out.
  choose_unset :
      (x : Text) (out rest : List Text)
      → is_empty (trim_space (getenv x)) ≡ true
      → choose (out ++ (x ∷ rest)) ≡ choose (out ++ rest)
  unfolding choose_variable
  choose_unset x [] rest e = rw e refl
  choose_unset x (y ∷ ys) rest e =
      choose-cons y (ys ++ (x ∷ rest)) (ys ++ rest) (choose_unset x ys rest e)

  -- A variable that stood before may be left out.
  choose_again :
      (x : Text) (out rest : List Text)
      → member x out ≡ true
      → choose (out ++ (x ∷ rest)) ≡ choose (out ++ rest)
  unfolding choose_variable
  choose_again x [] rest m = absurd (cc)
  choose_again x (y ∷ ys) rest m = elim (Bool-cases (is_empty (trim_space (getenv y)))) [
    | inr e ↦ rw e refl
    | inl e ↦ elim (Bool-cases (y =? x)) [
      | inl s ↦ choose-cons y (ys ++ (x ∷ rest)) (ys ++ rest) (
          choose_unset x ys rest
            (subst (λ z. is_empty (trim_space (getenv z)) ≡ true) ((=?_iff y x).0 s) e))
      | inr s ↦
          choose-cons y (ys ++ (x ∷ rest)) (ys ++ rest)
            (choose_again x ys rest (subst (λ b. (b || member x ys) ≡ true) s m))
    ]
  ]

  choose-add_name :
      (x : Text) (out rest : List Text)
      → choose (add_name out x ++ rest) ≡ choose (out ++ (x ∷ rest))
  choose-add_name x out rest = elim (Bool-cases (member x out)) [
    | inl e ↦ rw e (sym (choose_again x out rest e))
    | inr e ↦ rw e (ap choose (append_assoc out (x ∷ []) rest))
  ]

  choose-add_names :
      (prefix : Text) (fs out rest : List Text)
      → choose (add_names prefix fs out ++ rest)
        ≡ choose (out ++ (map (env_name prefix) fs ++ rest))
  choose-add_names prefix [] out rest = refl
  choose-add_names prefix (f ∷ fs) out rest =
      choose-add_names prefix fs (add_name out (env_name prefix f)) rest
      ∙ choose-add_name (env_name prefix f) out (map (env_name prefix) fs ++ rest)

  -- The name list that `EnvNames` makes, which names no variable twice, leads to the first variable that
  -- is set.
  pub choose-env_names :
      (kind : Kind) (f : Field)
      → FirstSet getenv (variables kind f) default (choose (env_names kind f))
  unfolding env_names
  choose-env_names kind f =
      let spelled = f.name ∷ f.aliases in
      let specific = add_names (kind_prefix kind) spelled [] in
      let general = map (env_name env_default_prefix) spelled in
      subst (FirstSet getenv (variables kind f) default)
        (sym (
          ap choose (sym (append-nil (add_names env_default_prefix spelled specific)))
          ∙ choose-add_names env_default_prefix spelled specific []
          ∙ ap (λ ns. choose (specific ++ ns)) (append-nil general)
          ∙ choose-add_names (kind_prefix kind) spelled [] general))
        (choose_variable-FirstSet (variables kind f))
