-- ===== src/Docker/Build/Laws/Domains.antt =====
-- The domains of a host give it an identity: none of them normalises away.
use npmplus_docker_sync.Base.{
  ℕ, ◌==◌, Bool, true, false, ◌&&◌, ◌||◌, List, [], ◌∷◌, inl, inr, ◌≡◌, refl, ap, sym, subst, arith,
  if◌then◌else◌, any, is_empty, length, All,
}
use npmplus_docker_sync.Base.Sort.Laws.{All-sort, length-sort}
use npmplus_docker_sync.Base.Text.{
  Text, ◌<?◌, ◌=?◌, is_space, to_lower, lower_byte, trim_space, trim_left, trim_right, trim_suffix,
  split,
}
use npmplus_docker_sync.Docker.Build.Hosts.{required_domains}
use npmplus_docker_sync.Docker.Checked.{◌>>=◌, bad_domain}
use npmplus_docker_sync.Docker.Checked.Laws.{Ok, failed, holds, Ok->>=, Ok-if}
use npmplus_docker_sync.Docker.FieldSet.{
  FieldSet, string, source, domains, valid_domains, valid_domain, split_list,
}
use npmplus_docker_sync.Docker.Types.{first}
use npmplus_docker_sync.Fields.Names.Laws.{Starts, trim_left-Starts, trim_right-Starts}
use npmplus_docker_sync.Fields.Shared.Constants.{name_domains}
use npmplus_docker_sync.Npm.Domains.{normal_domain, dedupe, normalize_domains}

to_lower-Starts : (s : Text) → Starts s → Starts (to_lower s)
unfolding to_lower is_space
to_lower-Starts [] h = tt
to_lower-Starts (c ∷ s) h = ground arith

trim_suffix-Starts : (s : Text) (c : ℕ) → Starts s → Starts (trim_suffix s c)
unfolding trim_suffix
trim_suffix-Starts [] c h = tt
trim_suffix-Starts (x ∷ []) c h = step (x == c)
  where
    step : (b : Bool) → Starts (if b then [] else x ∷ [])
    step true = tt
    step false = h
trim_suffix-Starts (x ∷ y ∷ s) c h = h

normal_domain-Starts : (raw : Text) → Starts (normal_domain raw)
unfolding normal_domain trim_space
normal_domain-Starts raw =
    trim_suffix-Starts _ b'.' (to_lower-Starts _ (trim_right-Starts _ (trim_left-Starts raw)))

-- A name as `NormalizeDomains` returns it.
abbrev IsNormal : Text → Type 0
IsNormal d = Starts d × (is_empty d ≡ false)

dedupe-IsNormal : (seen ds : List Text) → All IsNormal (dedupe seen ds)
unfolding dedupe
dedupe-IsNormal seen [] = tt
dedupe-IsNormal seen (raw ∷ ds) =
    step (is_empty (normal_domain raw)) refl (any (λ s. s =? normal_domain raw) seen)
      (dedupe-IsNormal seen ds) (dedupe-IsNormal (normal_domain raw ∷ seen) ds)
  where
    step :
        (a : Bool)
        → is_empty (normal_domain raw) ≡ a
        → (b : Bool) → All IsNormal (dedupe seen ds)
        → All IsNormal (dedupe (normal_domain raw ∷ seen) ds)
        → All IsNormal (
            if a || b
            then dedupe seen ds
            else normal_domain raw ∷ dedupe (normal_domain raw ∷ seen) ds)
    step true e b h k = h
    step false e true h k = h
    step false e false h k = ((normal_domain-Starts raw, e), k)

normalize_domains-IsNormal : (ds : List Text) → All IsNormal (normalize_domains ds)
unfolding normalize_domains
normalize_domains-IsNormal ds = All-sort ◌<?◌ IsNormal (dedupe [] ds) (dedupe-IsNormal [] ds)

empty_piece : (c : ℕ) (s : Text) → (c == b'.') ≡ true → any is_empty (split (c ∷ s) b'.') ≡ true
unfolding split
empty_piece c s h = rw h refl

-- A valid name with no blank in front does not normalise away.
first_byte : (c : ℕ) (s : Text) → valid_domain (c ∷ s) ≡ true → (c == b'.') ≡ false
unfolding valid_domain
first_byte c s h = step (c == b'.') refl
  where
    step : (b : Bool) → (c == b'.') ≡ b → b ≡ false
    step true e = absurd (ground (arith, h, empty_piece c s e))
    step false e = refl

trim_suffix_kept :
    (x : ℕ) (s : Text) → (x == b'.') ≡ false → is_empty (trim_suffix (x ∷ s) b'.') ≡ false
unfolding trim_suffix
trim_suffix_kept x [] h = rw h refl
trim_suffix_kept x (y ∷ s) h = refl

trim_space_head : (c : ℕ) (s : Text) → is_space c ≡ false → trim_space (c ∷ s) ≡ c ∷ trim_right s
unfolding trim_space trim_right
trim_space_head c s h = rw (h, trim_left) (step (is_empty (trim_right s)))
  where
    step : (b : Bool) → (if b && is_space c then [] else c ∷ trim_right s) ≡ c ∷ trim_right s
    step true = rw h refl
    step false = refl

lower_byte_dot : (c : ℕ) → (c == b'.') ≡ false → (lower_byte c == b'.') ≡ false
lower_byte_dot c h = ground arith

normal_domain_kept :
    (d : Text) → IsNormal d → valid_domain d ≡ true → is_empty (normal_domain d) ≡ false
unfolding normal_domain to_lower
normal_domain_kept [] h v = absurd (cc)
normal_domain_kept (c ∷ s) h v =
    rw (trim_space_head c s h.0)
      (trim_suffix_kept (lower_byte c) _ (lower_byte_dot c (first_byte c s v)))

first_of_All :
    (xs : List Text) → All IsNormal xs → is_empty xs ≡ false → is_empty (first xs) ≡ false
first_of_All [] h e = absurd (cc)
first_of_All (x ∷ xs) h e = h.0.1

is_empty-length :
    {A : Type 0} (xs ys : List A)
    → length xs ≡ length ys
    → is_empty ys ≡ false
    → is_empty xs ≡ false
is_empty-length [] [] h e = e
is_empty-length [] (y ∷ ys) h e = absurd (ground arith)
is_empty-length (x ∷ xs) ys h e = refl

normalize_domains_kept :
    (d : Text) (ds : List Text)
    → is_empty (normal_domain d) ≡ false
    → is_empty (normalize_domains (d ∷ ds)) ≡ false
unfolding normalize_domains
normalize_domains_kept d ds h =
    is_empty-length _ (dedupe [] (d ∷ ds)) (length-sort ◌<?◌ (dedupe [] (d ∷ ds)))
      (unfold dedupe in rw h refl)

-- The names give a host a key.
abbrev pub HasIdentity : List Text → Type 0
HasIdentity ds = is_empty (first (normalize_domains ds)) ≡ false

HasIdentity-of_valid :
    (ds : List Text)
    → is_empty ds ≡ false
    → All IsNormal ds
    → All (λ d. valid_domain d ≡ true) ds
    → HasIdentity ds
HasIdentity-of_valid [] e h v = absurd (cc)
HasIdentity-of_valid (d ∷ ds) e h v =
    first_of_All _ (normalize_domains-IsNormal (d ∷ ds))
      (normalize_domains_kept d ds (normal_domain_kept d h.0 v.0))

-- What `domains` returns: the names it was given, all of them valid.
Checks : List Text → List Text → Type 0
Checks ds r = (r ≡ ds) × All (λ d. valid_domain d ≡ true) r

valid_domains-Checks : (src : Text) (ds : List Text) → Ok (Checks ds) (valid_domains src ds)
unfolding valid_domains Checks
valid_domains-Checks src [] = holds (refl, tt)
valid_domains-Checks src (d ∷ ds) = step (valid_domain d) refl (valid_domains-Checks src ds)
  where
    step :
        (b : Bool)
        → valid_domain d ≡ b
        → Ok (Checks ds) (valid_domains src ds)
        → Ok
            (Checks (d ∷ ds))
            (if b then valid_domains src ds >>= (λ r. inr (d ∷ r)) else inl (bad_domain src d))
    step true e ih = Ok->>= ih (λ r c. holds (ap (λ x. d ∷ x) c.0, (e, c.1)))
    step false e ih = failed

pub required_domains-HasIdentity :
    (f : FieldSet) → Ok (λ ds. (is_empty ds ≡ false) × HasIdentity ds) (required_domains f)
unfolding required_domains domains Checks
required_domains-HasIdentity f =
    Ok->>=
      (valid_domains-Checks (source f name_domains)
        (normalize_domains (split_list (string f name_domains))))
      (λ r c.
        Ok-if (is_empty r) (λ e. failed)
          (λ e. holds (
            e,
            HasIdentity-of_valid r e
                (subst (All IsNormal) (sym c.0)
                  (normalize_domains-IsNormal (split_list (string f name_domains))))
                c.1,
          )))
