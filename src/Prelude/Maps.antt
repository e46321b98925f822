-- ===== src/Prelude/Maps.antt =====
-- Go's maps with string keys, as association lists. A range over a map visits the entries in the
-- list's order; a key is bound once by `insert`. A nil map reads as the empty one.
use Prim.Native.String.{String}
use mathlib.Core.Path.{◌≡◌, refl}
use mathlib.Core.Bool.{Bool}
use mathlib.Core.List.{List, [], ◌∷◌}
use mathlib.Core.Option.{Option, none, some}
use native.Mathlib.Omega.{arith}
use text.Mathlib.Text.{◌==◌ as str_eq}
use text.Mathlib.TextEquality.{eq_iff}
use cfm.Prelude.Tests.{if◌then◌else◌, is_some}

abbrev pub Map {ℓ} : Type ℓ → Type ℓ
Map V = List (String × V)

module _ {ℓ} {V : Type ℓ} where
  abbrev pub empty : Map V
  empty = []

  -- m[k], with none for a missing key
  unfoldable pub lookup : Map V → String → Option V
  lookup [] k = none
  lookup ((j, v) ∷ m) k = if str_eq j k then some v else lookup m k

  -- m[k] = v
  unfoldable pub insert : Map V → String → V → Map V
  insert [] k v = (k, v) ∷ []
  insert ((j, w) ∷ m) k v = if str_eq j k then (j, v) ∷ m else (j, w) ∷ insert m k v

  -- delete(m, k)
  unfoldable pub delete : Map V → String → Map V
  delete [] k = []
  delete ((j, v) ∷ m) k = let rest = delete m k in if str_eq j k then rest else (j, v) ∷ rest

  -- for k, v := range from { m[k] = v }
  unfoldable pub merge : Map V → Map V → Map V
  merge m [] = m
  merge m ((k, v) ∷ from) = merge (insert m k v) from

  abbrev pub has : Map V → String → Bool
  has m k = is_some (lookup m k)

  pub lookup-insert :
      (m : Map V) (k j : String) (v : V)
      → lookup (insert m k v) j ≡ (if str_eq k j then some v else lookup m j)
  unfolding lookup insert
  lookup-insert [] k j v = refl
  lookup-insert ((i, w) ∷ m) k j v =
      ground (arith, eq_iff k j, eq_iff i k, eq_iff i j, lookup-insert m k j v)

  pub lookup-delete :
      (m : Map V) (k j : String) → lookup (delete m k) j ≡ (if str_eq k j then none else lookup m j)
  unfolding lookup delete
  lookup-delete [] k j = ground arith
  lookup-delete ((i, w) ∷ m) k j =
      ground (arith, eq_iff k j, eq_iff i k, eq_iff i j, lookup-delete m k j)
