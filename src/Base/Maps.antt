-- ===== src/Base/Maps.antt =====
-- `HashMap<Hash, V>` as an association list. The iteration order is that of insertion, which is
-- one of those that the standard library allows.
use Prim.Native.Nat.{ℕ}
use mathlib.Core.Path.{◌≡◌, refl}
use mathlib.Core.Bool.{Bool, true, false}
use mathlib.Core.List.{List, [], ◌∷◌}
use mathlib.Core.Option.{Option, none, some}
use native.Mathlib.Omega.{arith}
use grapheno.Base.Tests.{if◌then◌else◌, ◌==◌}

abbrev pub Map {ℓ} : Type ℓ → Type ℓ
Map V = List (ℕ × V)

-- `HashSet<Hash>`
abbrev pub contains : ℕ → List ℕ → Bool
contains k [] = false
contains k (j ∷ s) = if k == j then true else contains k s

module _ {ℓ} {V : Type ℓ} where
  unfoldable pub lookup : ℕ → Map V → Option V
  lookup k [] = none
  lookup k ((j, v) ∷ m) = if k == j then some v else lookup k m

  unfoldable pub insert : ℕ → V → Map V → Map V
  insert k v [] = (k, v) ∷ []
  insert k v (e ∷ m) = if k == e.0 then (k, v) ∷ m else e ∷ insert k v m

  -- All entries with the key go; a map built by `insert` has at most one.
  unfoldable pub remove : ℕ → Map V → Map V
  remove k [] = []
  remove k (e ∷ m) = if k == e.0 then remove k m else e ∷ remove k m

  -- `entry(k).and_modify(f)`
  unfoldable pub modify : ℕ → (V → V) → Map V → Map V
  modify k f [] = []
  modify k f (e ∷ m) = if k == e.0 then (e.0, f e.1) ∷ modify k f m else e ∷ modify k f m

  abbrev pub contains_key : ℕ → Map V → Bool
  contains_key k m = elim (lookup k m) [ none ↦ false | some _ ↦ true ]

  pub lookup-insert :
      (j k : ℕ) (v : V) (m : Map V)
      → lookup j (insert k v m) ≡ (if j == k then some v else lookup j m)
  unfolding lookup insert
  lookup-insert j k v [] = refl
  lookup-insert j k v (e ∷ m) = ground (arith, lookup-insert j k v m)

  pub lookup-remove :
      (j k : ℕ) (m : Map V) → lookup j (remove k m) ≡ (if j == k then none else lookup j m)
  unfolding lookup remove
  lookup-remove j k [] = ground arith
  lookup-remove j k (e ∷ m) = ground (arith, lookup-remove j k m)

  abbrev pub map_some {κ} : {W : Type κ} → (V → W) → Option V → Option W
  map_some f none = none
  map_some f (some v) = some (f v)

  pub lookup-modify :
      (j k : ℕ) (f : V → V) (m : Map V)
      → lookup j (modify k f m) ≡ (if j == k then map_some f (lookup j m) else lookup j m)
  unfolding lookup modify
  lookup-modify j k f [] = ground arith
  lookup-modify j k f (e ∷ m) = ground (arith, lookup-modify j k f m)
