-- ===== src/Fields/Types/Laws.antt =====
-- `Field.Parse` canonicalises: what it returns it accepts and returns again.
use npmplus_docker_sync.Base.{
  ℕ, Bool, true, false, ◌&&◌, Option, none, some, List, [], ◌∷◌, ◌≡◌, ◌⊎◌, inl, inr, refl, sym, ap,
  ◌∙◌, subst, arith, if◌then◌else◌, is_empty,
}
use npmplus_docker_sync.Base.Number.{ℤ, atoi}
use npmplus_docker_sync.Base.Text.{
  Text, ◌=?◌, =?_iff, to_lower, lower_byte, is_space, trim_space, trim_left, trim_right, equal_fold,
}
use npmplus_docker_sync.Fields.Names.Laws.{trim_space_idem}
use npmplus_docker_sync.Fields.Types.{
  Field, ValueType, string_type, bool_type, int_type, port_type, enum_type, domains_type, list_type,
  certificate_type, ValueError, not_one_of, out_of_range, auto, parse_bool, find_value, found_or,
  validate_enum, format_bool, format_parsed, is_port, parsed_int, parsed_port, parse_as, parse,
}

is_space-lower_byte : (c : ℕ) → is_space (lower_byte c) ≡ is_space c
unfolding is_space
is_space-lower_byte c = ground arith

lower_byte_idem : (c : ℕ) → lower_byte (lower_byte c) ≡ lower_byte c
lower_byte_idem c = ground arith

to_lower_idem : (s : Text) → to_lower (to_lower s) ≡ to_lower s
unfolding to_lower
to_lower_idem [] = refl
to_lower_idem (c ∷ s) = rw lower_byte_idem (ap (λ r. lower_byte c ∷ r) (to_lower_idem s))

trim_left-to_lower : (s : Text) → trim_left (to_lower s) ≡ to_lower (trim_left s)
unfolding trim_left to_lower
trim_left-to_lower [] = refl
trim_left-to_lower (c ∷ s) =
    rw (is_space-lower_byte, trim_left) (step (is_space c) (trim_left-to_lower s))
  where
    step :
        (b : Bool)
        → trim_left (to_lower s) ≡ to_lower (trim_left s)
        → (elim b [ true ↦ trim_left (to_lower s) | false ↦ lower_byte c ∷ to_lower s ])
          ≡ to_lower (elim b [ true ↦ trim_left s | false ↦ c ∷ s ])
    step true h = h
    step false h = refl

trim_right-to_lower : (s : Text) → trim_right (to_lower s) ≡ to_lower (trim_right s)
unfolding trim_right to_lower
trim_right-to_lower [] = refl
trim_right-to_lower (c ∷ s) =
    rw (is_space-lower_byte, trim_right)
      (step (trim_right (to_lower s)) (trim_right s) (is_space c) (trim_right-to_lower s))
  where
    step :
        (q r : Text) (b : Bool)
        → q ≡ to_lower r
        → (if is_empty q && b then [] else lower_byte c ∷ q)
          ≡ to_lower (if is_empty r && b then [] else c ∷ r)
    step q [] true h = rw h refl
    step q [] false h = rw h refl
    step q (x ∷ r) b h = rw h refl

trim_space-to_lower : (s : Text) → trim_space (to_lower s) ≡ to_lower (trim_space s)
unfolding trim_space
trim_space-to_lower s = ap trim_right (trim_left-to_lower s) ∙ trim_right-to_lower (trim_left s)

find_value_step :
    (v a : Text) (rest : Option Text) {w : Text} (b : Bool)
    → (v =? a) ≡ b
    → (if b then some a else rest) ≡ some w
    → (rest ≡ some w → v ≡ w)
    → v ≡ w
find_value_step v a rest true e h ih = (=?_iff v a).0 e ∙ cc
find_value_step v a rest false e h ih = ih h

-- A value of an enum that was found is the folded text.
find_value_sound : (v : Text) (enum : List Text) {w : Text} → find_value v enum ≡ some w → v ≡ w
unfolding find_value
find_value_sound v [] h = absurd (cc)
find_value_sound v (a ∷ enum) h =
    find_value_step v a (find_value v enum) (v =? a) refl h (find_value_sound v enum)

-- Folding a folded value.
fold_idem : (s : Text) → to_lower (trim_space (to_lower (trim_space s))) ≡ to_lower (trim_space s)
fold_idem s =
    ap to_lower (trim_space-to_lower (trim_space s) ∙ ap to_lower (trim_space_idem s))
    ∙ to_lower_idem (trim_space s)

found_or-some : (e : ValueError) (o : Option Text) {w : Text} → found_or e o ≡ inr w → o ≡ some w
found_or-some e none h = absurd (cc)
found_or-some e (some v) h = cc

validate_enum_idem :
    (enum : List Text) (raw w : Text)
    → validate_enum enum raw ≡ inr w
    → validate_enum enum (trim_space w) ≡ inr w
unfolding validate_enum
validate_enum_idem enum raw w h =
    let found = found_or-some _ (find_value (to_lower (trim_space raw)) enum) h in
    let same = find_value_sound (to_lower (trim_space raw)) enum found in
    ap (λ v. found_or (not_one_of (trim_space w) enum) (find_value v enum))
      (ap to_lower
          (ap trim_space (ap trim_space (sym same)) ∙ trim_space_idem (to_lower (trim_space raw)))
        ∙ fold_idem raw)
    ∙ ap (found_or (not_one_of (trim_space w) enum)) found

-- The canonical spelling of a value by its type.
parsed_int_value :
    (raw w : Text) (o : Option ℤ) → parsed_int raw o ≡ inr w → (raw ≡ w) × (parsed_int w o ≡ inr w)
parsed_int_value raw w none h = absurd (cc)
parsed_int_value raw w (some n) h = (cc, refl)

parsed_port_value :
    (raw w : Text) (o : Option ℤ)
    → parsed_port raw o ≡ inr w
    → (raw ≡ w) × (parsed_port w o ≡ inr w)
parsed_port_value raw w none h = absurd (cc)
parsed_port_value raw w (some n) h = step (is_port n) h
  where
    step :
        (b : Bool)
        → (if b then inr raw else inl (out_of_range n)) ≡ inr w
        → (raw ≡ w) × ((if b then inr w else inl (out_of_range n)) ≡ inr w)
    step true k = (cc, refl)
    step false k = absurd (cc)

port_type-auto : (f : Field) → parse_as port_type f (trim_space auto) ≡ inr auto
unfolding parse_as trim_space trim_left trim_right equal_fold to_lower ◌=?◌ is_space
port_type-auto f = refl

bool_type-auto :
    (f : Field) → (f.default =? auto) ≡ true → parse_as bool_type f (trim_space auto) ≡ inr auto
unfolding parse_as trim_space trim_left trim_right equal_fold to_lower ◌=?◌ is_space
bool_type-auto f e = rw e refl

bool_type-format_bool :
    (f : Field) (b : Bool) → parse_as bool_type f (trim_space (format_bool b)) ≡ inr (format_bool b)
unfolding parse_as trim_space trim_left trim_right equal_fold to_lower ◌=?◌ is_space parse_bool
bool_type-format_bool f true = refl
bool_type-format_bool f false = refl

parse_port_idem :
    (f : Field) (raw w : Text)
    → trim_space raw ≡ raw
    → parse_as port_type f raw ≡ inr w
    → parse_as port_type f (trim_space w) ≡ inr w
unfolding parse_as
parse_port_idem f raw w t h = step (equal_fold raw auto) refl h
  where
    kept :
        (raw ≡ w) × (parsed_port w (atoi raw) ≡ inr w)
        → equal_fold raw auto ≡ false
        → parse_as port_type f (trim_space w) ≡ inr w
    kept (same, ok) e = rw (sym same) (rw (t, e) (rw (sym same) at ok))

    step :
        (b : Bool)
        → equal_fold raw auto ≡ b
        → (if b then inr auto else parsed_port raw (atoi raw)) ≡ inr w
        → parse_as port_type f (trim_space w) ≡ inr w
    step true e k = subst (λ v. parse_as port_type f (trim_space v) ≡ inr v) (cc) (port_type-auto f)
    step false e k = kept (parsed_port_value raw w (atoi raw) k) e

parse_bool_idem :
    (f : Field) (raw w : Text)
    → parse_as bool_type f raw ≡ inr w
    → parse_as bool_type f (trim_space w) ≡ inr w
unfolding parse_as
parse_bool_idem f raw w h = step (f.default =? auto) refl (equal_fold raw auto) (parse_bool raw) h
  where
    formatted :
        (p : ValueError ⊎ Bool)
        → format_parsed p ≡ inr w
        → parse_as bool_type f (trim_space w) ≡ inr w
    formatted (inl e) k = absurd (cc)
    formatted (inr b) k =
        subst (λ v. parse_as bool_type f (trim_space v) ≡ inr v) (cc) (bool_type-format_bool f b)

    step :
        (d : Bool)
        → (f.default =? auto) ≡ d
        → (b : Bool) (p : ValueError ⊎ Bool)
        → (if b && d then inr auto else format_parsed p) ≡ inr w
        → parse_as bool_type f (trim_space w) ≡ inr w
    step true e true p k =
        subst (λ v. parse_as bool_type f (trim_space v) ≡ inr v) (cc) (bool_type-auto f e)
    step true e false p k = formatted p k
    step false e true p k = formatted p k
    step false e false p k = formatted p k

parse_int_idem :
    (f : Field) (raw w : Text)
    → trim_space raw ≡ raw
    → parse_as int_type f raw ≡ inr w
    → parse_as int_type f (trim_space w) ≡ inr w
unfolding parse_as
parse_int_idem f raw w t h = kept (parsed_int_value raw w (atoi raw) h)
  where
    kept :
        (raw ≡ w) × (parsed_int w (atoi raw) ≡ inr w) → parse_as int_type f (trim_space w) ≡ inr w
    kept (same, ok) = rw (sym same) (rw t (rw (sym same) at ok))

kept_text :
    (raw w : Text)
    → trim_space raw ≡ raw
    → ◌≡◌ {A = ValueError ⊎ Text} (inr raw) (inr w)
    → ◌≡◌ {A = ValueError ⊎ Text} (inr (trim_space w)) (inr w)
kept_text raw w t h =
    subst (λ v. ◌≡◌ {A = ValueError ⊎ Text} (inr (trim_space v)) (inr v)) (cc) (ap inr t)

parse_as_idem :
    (ty : ValueType) (f : Field) (raw w : Text)
    → trim_space raw ≡ raw
    → parse_as ty f raw ≡ inr w
    → parse_as ty f (trim_space w) ≡ inr w
unfolding parse_as
parse_as_idem string_type f raw w t h = kept_text raw w t h
parse_as_idem bool_type f raw w t h = parse_bool_idem f raw w h
parse_as_idem int_type f raw w t h = parse_int_idem f raw w t h
parse_as_idem port_type f raw w t h = parse_port_idem f raw w t h
parse_as_idem enum_type f raw w t h = validate_enum_idem f.enum raw w h
parse_as_idem domains_type f raw w t h = kept_text raw w t h
parse_as_idem list_type f raw w t h = kept_text raw w t h
parse_as_idem certificate_type f raw w t h = kept_text raw w t h

-- What `Parse` makes of a raw value is a value that `Parse` accepts and leaves as it is, for a field
-- of every type.
parse_idem : (f : Field) (raw w : Text) → parse f raw ≡ inr w → parse f w ≡ inr w
unfolding parse
parse_idem f raw w h = parse_as_idem f.value_type f (trim_space raw) w (trim_space_idem raw) h
