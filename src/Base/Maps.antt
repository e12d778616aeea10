-- ===== src/Base/Maps.antt =====
-- A `std::map` with native keys as a list of its entries, in the order in which they were entered.
-- The source never depends on the order of iteration.
use Prim.Native.Nat.{ℕ}
use mathlib.Core.Path.{◌≡◌, refl}
use mathlib.Core.List.{List, [], ◌∷◌}
use mathlib.Core.Option.{Option, none, some}
use native.Mathlib.Omega.{arith}
use cs144_sponge.Base.Tests.{◌==◌, if◌then◌else◌}

abbrev pub Map {ℓ} : Type ℓ → Type ℓ
Map V = List (ℕ × V)

module _ {ℓ} {V : Type ℓ} where
  -- `find`
  abbrev pub find : ℕ → Map V → Option V
  find k [] = none
  find k ((j, w) ∷ m) = if k == j then some w else find k m

  -- `m[k] = v`
  abbrev pub insert : ℕ → V → Map V → Map V
  insert k v [] = (k, v) ∷ []
  insert k v ((j, w) ∷ m) = if k == j then (k, v) ∷ m else (j, w) ∷ insert k v m

  -- The keys differ.
  abbrev pub UniqueKeys : Map V → Type ℓ
  UniqueKeys [] = Unit {ℓ}
  UniqueKeys ((k, v) ∷ m) = (find k m ≡ none) × UniqueKeys m

  pub find-insert :
      (j k : ℕ) (v : V) (m : Map V) → find j (insert k v m) ≡ (if j == k then some v else find j m)
  find-insert j k v [] = refl
  find-insert j k v ((i, w) ∷ m) = ground (arith, find-insert j k v m)

  pub insert-UniqueKeys : (k : ℕ) (v : V) (m : Map V) → UniqueKeys m → UniqueKeys (insert k v m)
  insert-UniqueKeys k v [] u = (refl, tt)
  insert-UniqueKeys k v ((j, w) ∷ m) (fresh, u) =
      ground (arith, insert-UniqueKeys k v m u, find-insert j k v m)
