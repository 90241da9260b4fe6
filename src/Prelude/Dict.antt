-- ===== src/Prelude/Dict.antt =====
-- Go maps with string keys. The list's order is the order in which a `range` visits the map, which
-- Go leaves open: what holds for every list holds for each such order.
use mathlib.Core.Path.{◌≡◌, refl}
use mathlib.Core.Bool.{Bool, true, false, ◌||◌}
use mathlib.Core.List.{List, [], ◌∷◌, ◌++◌}
use mathlib.Core.Option.{Option, none, some}
use native.Mathlib.Omega.{arith}
use cs_sync.Prelude.Tests.{if◌then◌else◌}
use cs_sync.Prelude.Strings.{Text, eqt, eqt_iff}

abbrev pub Dict {ℓ} : Type ℓ → Type ℓ
Dict V = List (Text × V)

-- `for k := range m`
unfoldable pub contains : Text → List Text → Bool
contains k [] = false
contains k (j ∷ ks) = let rest = contains k ks in if eqt j k then true else rest

module _ {ℓ} {V : Type ℓ} where
  unfoldable pub lookup : Text → Dict V → Option V
  lookup k [] = none
  lookup k ((j, v) ∷ m) = let rest = lookup k m in if eqt j k then some v else rest

  -- `m[k] = v`
  unfoldable pub insert : Text → V → Dict V → Dict V
  insert k v [] = (k, v) ∷ []
  insert k v ((j, w) ∷ m) = let rest = insert k v m in if eqt j k then (k, v) ∷ m else (j, w) ∷ rest

  -- `delete(m, k)`
  unfoldable pub erase : Text → Dict V → Dict V
  erase k [] = []
  erase k ((j, w) ∷ m) = let rest = erase k m in if eqt j k then rest else (j, w) ∷ rest

  unfoldable pub keys : Dict V → List Text
  keys [] = []
  keys ((k, v) ∷ m) = k ∷ keys m

  pub lookup-insert :
      (k j : Text) (v : V) (m : Dict V)
      → lookup j (insert k v m) ≡ (if eqt k j then some v else lookup j m)
  unfolding lookup insert
  lookup-insert k j v [] = refl
  lookup-insert k j v ((i, w) ∷ m) =
      ground (arith, eqt_iff k j, eqt_iff i k, eqt_iff i j, lookup-insert k j v m)

  pub lookup-erase :
      (k j : Text) (m : Dict V) → lookup j (erase k m) ≡ (if eqt k j then none else lookup j m)
  unfolding lookup erase
  lookup-erase k j [] = ground arith
  lookup-erase k j ((i, w) ∷ m) =
      ground (arith, eqt_iff k j, eqt_iff i k, eqt_iff i j, lookup-erase k j m)

  -- A key that the map does not list has no value.
  pub lookup-keys : (k : Text) (m : Dict V) → contains k (keys m) ≡ false → lookup k m ≡ none
  unfolding lookup keys contains
  lookup-keys k [] h = refl
  lookup-keys k ((j, v) ∷ m) h = ground (arith, lookup-keys k m)

pub contains-append :
    (k : Text) (xs ys : List Text) → contains k (xs ++ ys) ≡ (contains k xs || contains k ys)
unfolding contains
contains-append k [] ys = refl
contains-append k (x ∷ xs) ys = ground (arith, contains-append k xs ys)
