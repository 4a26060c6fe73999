-- ===== src/Fields/Defaults/Laws.antt =====
-- The effective default of every field after `LoadDefaults`.
use npmplus_docker_sync.Base.{
  Bool, true, false, none, some, List, ◌≡◌, ◌⊎◌, inl, inr, refl, ap, ◌∙◌, if◌then◌else◌, In, here,
}
use npmplus_docker_sync.Base.Dict.{lookup}
use npmplus_docker_sync.Base.Text.{Text, ◌=?◌}
use npmplus_docker_sync.Fields.Defaults.{
  builtin, key, choose_variable, env_names, load_kinds, load_defaults, value, source_of, looked_up,
  text_or, default_of, nothing_loaded,
}
use npmplus_docker_sync.Fields.Defaults.Names.{FirstSet, variables, choose-env_names}
use npmplus_docker_sync.Fields.Index.{lookup_field, spellings}
use npmplus_docker_sync.Fields.Index.Laws.{lookup_field_iff}
use npmplus_docker_sync.Fields.Tables.{table}
use npmplus_docker_sync.Fields.Types.{Field, ValueError, parse}
use npmplus_docker_sync.Npm.Kind.{Kind, kinds}
use npmplus_docker_sync.Fields.Defaults.Stored.{found, stored, stored_parsed}
use npmplus_docker_sync.Fields.Defaults.Keys.{
  other_keys, keys_apart, other_keys_of_kinds, all_others, kinds_apart,
}
use npmplus_docker_sync.Fields.Defaults.Loop.{chosen, found-load_kinds}

kinds-apart : kinds_apart kinds ≡ true
unfolding kinds_apart keys_apart all_others other_keys_of_kinds other_keys key ◌=?◌
kinds-apart = refl

-- The effective default and its source, by what the environment has.
abbrev pub effective : Field → ValueError ⊎ Text → Text × Text → Text × Text
effective f (inl e) (raw, variable) = (f.default, builtin)
effective f (inr w) (raw, variable) = (w, variable)

-- What `LoadDefaults` is to give a field, by its first variable that is set: the built-in default
-- where there is none or where its value is refused, otherwise the parsed value of that variable.
unfoldable pub expected : (Text → Text) → Kind → Field → Text × Text
expected getenv kind f =
    let c = choose_variable getenv (env_names kind f) f.default in
    if c.1 =? builtin then c else effective f (parse f c.0) c

loaded-stored :
    (getenv : Text → Text) (kind : Kind) (f : Field)
    → In kind kinds
    → In f (table kind)
    → found (key kind f.name) (load_kinds getenv kinds nothing_loaded)
      ≡ stored f (choose_variable getenv (env_names kind f) f.default) (none, none)
unfolding found lookup chosen
loaded-stored getenv kind f i j = found-load_kinds getenv kinds nothing_loaded kinds-apart i j

default-of_In :
    (kind : Kind) (f : Field)
    → In f (table kind)
    → default_of (lookup_field kind f.name) ≡ f.default
unfolding default_of spellings
default-of_In kind f j = rw ((lookup_field_iff kind f.name f).1 (j, here refl)) refl

read_back-stored :
    (f : Field) (d : Text) (c : Text × Text)
    → d ≡ f.default
    → ◌≡◌ {A = Text × Text}
        (text_or d (stored f c (none, none)).0, text_or builtin (stored f c (none, none)).1)
        (if c.1 =? builtin then c else effective f (parse f c.0) c)
unfolding text_or stored stored_parsed
read_back-stored f d (v, source) h = step (source =? builtin) (parse f v)
  where
    step :
        (b : Bool) (r : ValueError ⊎ Text)
        → ◌≡◌ {A = Text × Text}
            (
              text_or d
                  (if b then (some v, some source) else stored_parsed source r (none, none)).0,
              text_or builtin
                  (if b then (some v, some source) else stored_parsed source r (none, none)).1,
            )
            (if b then (v, source) else effective f r (v, source))
    step true r = refl
    step false (inl e) = rw h refl
    step false (inr w) = refl

loaded-expected :
    (getenv : Text → Text) (environ : List Text) (kind : Kind) (f : Field)
    → In kind kinds
    → In f (table kind)
    → ◌≡◌ {A = Text × Text}
        (
          value (some (load_defaults getenv environ).0) kind f.name,
          source_of (some (load_defaults getenv environ).0) kind f.name,
        )
        (expected getenv kind f)
unfolding value source_of looked_up load_defaults expected found
loaded-expected getenv environ kind f i j =
    ap (λ p. (text_or (default_of (lookup_field kind f.name)) p.0, text_or builtin p.1))
      (loaded-stored getenv kind f i j)
    ∙ read_back-stored f (default_of (lookup_field kind f.name))
        (choose_variable getenv (env_names kind f) f.default) (default-of_In kind f j)

-- After `LoadDefaults`, the value and the source of every field of every kind come from its first
-- variable that is set: the variables are the field's name and its aliases behind the prefix of the
-- kind, and then behind the one for all kinds. They are the value of that variable, parsed by the rules
-- of the field, and its name; the built-in default where none is set or where the value is
-- refused.
pub value-load_defaults :
    (getenv : Text → Text) (environ : List Text) (kind : Kind) (f : Field)
    → In kind kinds
    → In f (table kind)
    → (c : Text × Text) × FirstSet getenv (variables kind f) f.default c
      × (◌≡◌ {A = Text × Text}
          (
            value (some (load_defaults getenv environ).0) kind f.name,
            source_of (some (load_defaults getenv environ).0) kind f.name,
          )
          (if c.1 =? builtin then c else effective f (parse f c.0) c))
unfolding expected
value-load_defaults getenv environ kind f i j = (
  choose_variable getenv (env_names kind f) f.default,
  choose-env_names getenv f.default kind f,
  loaded-expected getenv environ kind f i j,
)
