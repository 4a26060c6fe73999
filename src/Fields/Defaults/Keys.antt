-- ===== src/Fields/Defaults/Keys.antt =====
-- No two fields have the same key in the maps of `Defaults`.
use npmplus_docker_sync.Base.{
  Bool, true, false, not, ◌&&◌, List, [], ◌∷◌, ◌≡◌, sym, subst, arith, In, here, there,
}
use npmplus_docker_sync.Base.Text.{Text, ◌=?◌}
use npmplus_docker_sync.Fields.Defaults.{key}
use npmplus_docker_sync.Fields.Tables.{table}
use npmplus_docker_sync.Fields.Types.{Field}
use npmplus_docker_sync.Npm.Kind.{Kind}

-- No field of the list has the key.
unfoldable pub other_keys : Text → Kind → List Field → Bool
other_keys k kind [] = true
other_keys k kind (f ∷ fs) = not (k =? key kind f.name) && other_keys k kind fs

unfoldable pub keys_apart : Kind → List Field → Bool
keys_apart kind [] = true
keys_apart kind (f ∷ fs) = other_keys (key kind f.name) kind fs && keys_apart kind fs

unfoldable pub other_keys_of_kinds : Text → List Kind → Bool
other_keys_of_kinds k [] = true
other_keys_of_kinds k (kind ∷ ks) = other_keys k kind (table kind) && other_keys_of_kinds k ks

-- No two fields of the kinds have the same key.
unfoldable pub all_others : Kind → List Field → List Kind → Bool
all_others kind [] ks = true
all_others kind (f ∷ fs) ks = other_keys_of_kinds (key kind f.name) ks && all_others kind fs ks

unfoldable pub kinds_apart : List Kind → Bool
kinds_apart [] = true
kinds_apart (k ∷ ks) = (keys_apart k (table k) && all_others k (table k) ks) && kinds_apart ks

pub other_keys-In :
    (k : Text) (kind : Kind) (fs : List Field) {f : Field}
    → other_keys k kind fs ≡ true
    → In f fs
    → (k =? key kind f.name) ≡ false
unfolding other_keys
other_keys-In k kind [] h i = elim i [ ]
other_keys-In k kind (g ∷ fs) h (here e) = rw (sym e) (ground arith)
other_keys-In k kind (g ∷ fs) h (there i) = other_keys-In k kind fs (ground arith) i

pub other_keys_of_kinds-In :
    (k : Text) (ks : List Kind) {kind : Kind} {f : Field}
    → other_keys_of_kinds k ks ≡ true
    → In kind ks
    → In f (table kind)
    → (k =? key kind f.name) ≡ false
unfolding other_keys_of_kinds
other_keys_of_kinds-In k [] h i j = elim i [ ]
other_keys_of_kinds-In k (q ∷ ks) {f = f} h (here e) j =
    subst (λ r. (k =? key r f.name) ≡ false) e
      (other_keys-In k q (table q) (ground arith) (subst (λ r. In f (table r)) (sym e) j))
other_keys_of_kinds-In k (q ∷ ks) h (there i) j = other_keys_of_kinds-In k ks (ground arith) i j

pub all_others-In :
    (q : Kind) (fs : List Field) (ks : List Kind) {g : Field}
    → all_others q fs ks ≡ true
    → In g fs
    → other_keys_of_kinds (key q g.name) ks ≡ true
unfolding all_others
all_others-In q [] ks h i = elim i [ ]
all_others-In q (f ∷ fs) ks h (here e) = rw (sym e) (ground arith)
all_others-In q (f ∷ fs) ks h (there i) = all_others-In q fs ks (ground arith) i
