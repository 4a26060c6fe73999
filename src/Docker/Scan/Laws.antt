-- ===== src/Docker/Scan/Laws.antt =====
-- What `Scan` gives to the reconciler: the targets of all containers, and the protection of those
-- whose labels have errors.
use npmplus_docker_sync.Base.{
  Bool, true, false, not, ◌&&◌, ◌||◌, List, [], ◌∷◌, ◌≡◌, refl, sym, ap, subst, if◌then◌else◌,
  is_empty, In, here, there, ◌⊎◌, inl, inr, ◌++◌,
}
use npmplus_docker_sync.Base.Text.{Text, ◌=?◌, =?_refl}
use npmplus_docker_sync.Docker.Address.{Container, ParseOptions}
use npmplus_docker_sync.Docker.Scan.{
  ParseResult, no_result, parse, parse_all, parse_all_from, scan, scan_from, add_result,
  add_scanned, errors_of, warnings_of, is_broken, Scanned, nothing_scanned, protect,
}
use npmplus_docker_sync.Docker.Types.{is_protected, member}

member_here : (x : Text) (xs : List Text) → member x (x ∷ xs) ≡ true
member_here x xs = rw (=?_refl x) refl

member_there : (x y : Text) (xs : List Text) → member x xs ≡ true → member x (y ∷ xs) ≡ true
member_there x y xs h = step (y =? x)
  where
    step : (b : Bool) → (b || member x xs) ≡ true
    step true = refl
    step false = h

not_nil : (s : Text) → is_empty s ≡ false → not (s =? []) ≡ true
unfolding ◌=?◌
not_nil [] h = cc
not_nil (x ∷ s) h = refl

both : {a b : Bool} → a ≡ true → b ≡ true → (a && b) ≡ true
both h k = rw h k

module _ (parses_ip4 : Text → Bool) (opts : ParseOptions) where
  member-protect :
      (x : Text) (c : Container) (one : ParseResult) (p : List Text)
      → member x p ≡ true
      → member x (protect opts c one p) ≡ true
  member-protect x c one p h = step (is_broken opts one) (is_empty c.id) (is_empty c.name)
    where
      step :
          (b i n : Bool)
          → member x (
              if b
              then (if i
                  then (if n then p else c.name ∷ p)
                  else c.id ∷ (if n then p else c.name ∷ p))
              else p)
            ≡ true
      step false i n = h
      step true true true = h
      step true true false = member_there x c.name p h
      step true false true = member_there x c.id p h
      step true false false = member_there x c.id (c.name ∷ p) (member_there x c.name p h)

  -- The container has the text as its id or as its name.
  abbrev pub Identifies : Text → Container → Type 0
  Identifies x c = (is_empty x ≡ false) × ((x ≡ c.id) ⊎ (x ≡ c.name))

  -- The labels of the container have an error, or a resource of it was skipped for an unknown label under
  -- STRICT_LABELS.
  abbrev pub HasErrors : Container → Type 0
  HasErrors c =
      let one = parse parses_ip4 c opts in
      (is_empty one.errors ≡ false) ⊎ ((one.skipped_any ≡ true) × (opts.strict_labels ≡ true))

  broken : (c : Container) → HasErrors c → is_broken opts (parse parses_ip4 c opts) ≡ true
  broken c (inl h) = rw h refl
  broken c (inr (h, k)) = last (is_empty (parse parses_ip4 c opts).errors)
    where
      last :
          (b : Bool) → (not b || (parse parses_ip4 c opts).skipped_any && opts.strict_labels) ≡ true
      last true = rw (h, k) refl
      last false = refl

  member-protect_own :
      (x : Text) (c : Container) (one : ParseResult) (p : List Text)
      → is_broken opts one ≡ true
      → Identifies x c
      → member x (protect opts c one p) ≡ true
  member-protect_own x c one p h (e, inl i) =
      rw (h, subst (λ y. is_empty y ≡ false) i e)
        (subst (λ y. member x (y ∷ named) ≡ true) i (member_here x named))
    where
      named : List Text
      named = if is_empty c.name then p else c.name ∷ p
  member-protect_own x c one p h (e, inr n) =
      rw (h, subst (λ y. is_empty y ≡ false) n e) (with_id (is_empty c.id))
    where
      own : member x (c.name ∷ p) ≡ true
      own = subst (λ y. member x (y ∷ p) ≡ true) n (member_here x p)

      with_id : (b : Bool) → member x (if b then c.name ∷ p else c.id ∷ c.name ∷ p) ≡ true
      with_id true = own
      with_id false = member_there x c.id (c.name ∷ p) own

  -- What is protected stays so.
  scan_from-kept :
      (x : Text) (s : Scanned) (cs : List Container)
      → member x s.protected ≡ true
      → member x (scan_from parses_ip4 opts s cs).protected ≡ true
  unfolding scan_from
  scan_from-kept x s [] h = h
  scan_from-kept x s (c ∷ cs) h =
      scan_from-kept x (add_scanned opts c (parse parses_ip4 c opts) s) cs
        (member-protect x c (parse parses_ip4 c opts) s.protected h)

  scan_from-Protected :
      (x : Text) (c : Container) (s : Scanned) (cs : List Container)
      → In c cs
      → HasErrors c
      → Identifies x c
      → member x (scan_from parses_ip4 opts s cs).protected ≡ true
  unfolding scan_from
  scan_from-Protected x c s [] i h e = elim i [ ]
  scan_from-Protected x c s (d ∷ cs) (here g) h e =
      scan_from-kept x (add_scanned opts d (parse parses_ip4 d opts) s) cs (
        member-protect_own x d (parse parses_ip4 d opts) s.protected
          (broken d (subst HasErrors (sym g) h)) (subst (Identifies x) (sym g) e))
  scan_from-Protected x c s (d ∷ cs) (there i) h e =
      scan_from-Protected x c (add_scanned opts d (parse parses_ip4 d opts) s) cs i h e

  -- A container whose labels have an error, or with a resource that was skipped for an unknown label under
  -- STRICT_LABELS, is protected in the snapshot: what remembers its id, or its name, is protected whatever
  -- else it remembers. A container that is not managed, as one whose enable label cannot be read, is not
  -- parsed, so its labels have no error here.
  pub scan_protected :
      (c : Container) (cs : List Container) (name id : Text)
      → In c cs
      → HasErrors c
      → Identifies id c ⊎ Identifies name c
      → is_protected (scan parses_ip4 opts cs).0 name id ≡ true
  unfolding is_protected scan
  scan_protected c cs name id i h (inl e) =
      either
        (not (name =? []) && member name (scan_from parses_ip4 opts nothing_scanned cs).protected)
        (both (not_nil id e.0) (scan_from-Protected id c nothing_scanned cs i h e))
    where
      either : (a : Bool) {b : Bool} → b ≡ true → (a || b) ≡ true
      either true g = refl
      either false g = g
  scan_protected c cs name id i h (inr e) =
      rw (both (not_nil name e.0) (scan_from-Protected name c nothing_scanned cs i h e)) refl

  -- What the loops of `Scan` and `ParseAll` have so far is the same.
  abbrev Agrees : Scanned → ParseResult → Type 0
  Agrees s r = (s.targets ≡ r.targets) × (s.errors ≡ r.errors) × (s.warnings ≡ r.warnings)

  scan_from-parse_all :
      (s : Scanned) (r : ParseResult) (cs : List Container)
      → Agrees s r
      → Agrees (scan_from parses_ip4 opts s cs) (parse_all_from parses_ip4 opts r cs)
  unfolding scan_from parse_all_from
  scan_from-parse_all s r [] h = h
  scan_from-parse_all s r (c ∷ cs) (t, e, w) =
      scan_from-parse_all (add_scanned opts c (parse parses_ip4 c opts) s)
        (add_result c (parse parses_ip4 c opts) r) cs
        (
          ap (λ x. x ++ (parse parses_ip4 c opts).targets) t,
          ap (λ x. x ++ errors_of c (parse parses_ip4 c opts).errors) e,
          ap (λ x. x ++ warnings_of c (parse parses_ip4 c opts).warnings) w,
        )

  -- `Scan` and `ParseAll` agree: the targets of the snapshot are those that `ParseAll` returns, and so
  -- are the errors and the warnings.
  pub scan-parse_all :
      (cs : List Container)
      → ((scan parses_ip4 opts cs).0.targets ≡ (parse_all parses_ip4 opts cs).targets)
        × ((scan parses_ip4 opts cs).1.errors ≡ (parse_all parses_ip4 opts cs).errors)
        × ((scan parses_ip4 opts cs).1.warnings ≡ (parse_all parses_ip4 opts cs).warnings)
  unfolding scan parse_all
  scan-parse_all cs = scan_from-parse_all nothing_scanned no_result cs (refl, refl, refl)
