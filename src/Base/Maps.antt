-- ===== src/Base/Maps.antt =====
-- Finite maps and sets as association lists, for the source's HashMap, BTreeMap, HashSet and
-- BTreeSet: a key is found by decidable equality, and `insert` replaces in place.
use mathlib.Core.Path.{◌≡◌, refl}
use mathlib.Core.Logic.{ite}
use mathlib.Core.Bool.{Bool, true, false}
use mathlib.Core.Option.{Option, none, some}
use mathlib.Core.List.{List, [], ◌∷◌}
use native.Mathlib.Omega.{arith}

module _ {ℓ} {K V : Type ℓ} (dec : Discrete K) where
  unfoldable pub lookup : K → List (K × V) → Option V
  lookup k [] = none
  lookup k ((j, v) ∷ m) = ite (dec k j) (some v) (lookup k m)

  unfoldable pub insert : K → V → List (K × V) → List (K × V)
  insert k v [] = (k, v) ∷ []
  insert k v ((j, w) ∷ m) = ite (dec k j) ((k, v) ∷ m) ((j, w) ∷ insert k v m)

  unfoldable pub remove : K → List (K × V) → List (K × V)
  remove k [] = []
  remove k ((j, w) ∷ m) = ite (dec k j) (remove k m) ((j, w) ∷ remove k m)

  pub lookup-insert :
      (j k : K) (v : V) (m : List (K × V))
      → lookup j (insert k v m) ≡ ite (dec j k) (some v) (lookup j m)
  unfolding lookup insert
  lookup-insert j k v [] = refl
  lookup-insert j k v ((i, w) ∷ m) = ground (arith, lookup-insert j k v m)

  pub lookup-remove :
      (j k : K) (m : List (K × V)) → lookup j (remove k m) ≡ ite (dec j k) none (lookup j m)
  unfolding lookup remove
  lookup-remove j k [] = ground arith
  lookup-remove j k ((i, w) ∷ m) = ground (arith, lookup-remove j k m)

module _ {K : Type 0} (dec : Discrete K) where
  unfoldable pub contains : K → List K → Bool
  contains k [] = false
  contains k (j ∷ s) = ite (dec k j) true (contains k s)

  -- A set has no element twice.
  unfoldable pub add : K → List K → List K
  add k [] = k ∷ []
  add k (j ∷ s) = ite (dec k j) (j ∷ s) (j ∷ add k s)

  unfoldable pub discard : K → List K → List K
  discard k [] = []
  discard k (j ∷ s) = ite (dec k j) (discard k s) (j ∷ discard k s)

  pub contains-add :
      (j k : K) (s : List K) → contains j (add k s) ≡ ite (dec j k) true (contains j s)
  unfolding contains add
  contains-add j k [] = refl
  contains-add j k (i ∷ s) = ground (arith, contains-add j k s)

  pub contains-discard :
      (j k : K) (s : List K) → contains j (discard k s) ≡ ite (dec j k) false (contains j s)
  unfolding contains discard
  contains-discard j k [] = ground arith
  contains-discard j k (i ∷ s) = ground (arith, contains-discard j k s)
