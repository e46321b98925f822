-- ===== src/Dag/Topological.antt =====
-- The order of TopologicalSort in reverse (common/dag/dag.go, common/system/assembler.go): every vertex stands behind
-- those that its edges lead to.
use mathlib.Core.List.{reverse-cons}
use cfm.Prelude.{
  ◌<◌, ◌≡◌, refl, sym, subst, String, Option, none, some, List, [], ◌∷◌, ◌++◌, arith, occ, eq_iff,
  eq_refl, reverse, map, ap, ◌∙◌,
}
use cfm.Dag.{Graph}
use cfm.Dag.WellFormed.{IsWellFormed}
use cfm.Dag.Walks.{Edge}
use cfm.Dag.Cycles.{Detected, detect_cycle_with_path}
use cfm.Dag.Kahn.{Ordered, IsOrder, kahn-IsOrder}
use cfm.Dag.Levels.{IsLayering, Layered, flat}
use cfm.Dag.Reversed.{Ready, IsLayering-Ready}
use cfm.Dag.Sort.{SortResult, sorted, topological_sort, kahn, size}

abbrev singles : List String → List (List String)
singles = map (λ k. k ∷ [])

occ-singles : (k : String) (xs : List String) → occ k (flat (singles xs)) ≡ occ k xs
occ-singles k [] = refl
occ-singles k (x ∷ xs) = omega (arith, occ-singles k xs)

map_snoc : (xs : List String) (x : String) → singles (xs ++ x ∷ []) ≡ singles xs ++ (x ∷ []) ∷ []
map_snoc [] x = refl
map_snoc (y ∷ xs) x = ap (λ ls. (y ∷ []) ∷ ls) (map_snoc xs x)

reverse-singles : (xs : List String) → reverse (singles xs) ≡ singles (reverse xs)
reverse-singles [] = refl
reverse-singles (x ∷ xs) =
    reverse-cons (x ∷ []) (singles xs)
    ∙ ap (λ ls. ls ++ (x ∷ []) ∷ []) (reverse-singles xs)
    ∙ sym (map_snoc (reverse xs) x)
    ∙ ap singles (sym (reverse-cons x xs))

module _ {ℓ} {T : Type ℓ} (g : Graph T) where
  -- The edges of each vertex lead to vertices before it.
  abbrev pub InOrder : List String → List String → Type 0
  InOrder before [] = Unit
  InOrder before (u ∷ us) =
      ((v : String) → Edge g u v → 0 < occ v before) × InOrder (before ++ u ∷ []) us

  Ordered-Layered : (placed ks : List String) → Ordered g placed ks → Layered g placed (singles ks)
  Ordered-Layered placed [] h = tt
  Ordered-Layered placed (k ∷ ks) h = (
    omega arith,
    (λ j there w vertex edge. ground (arith, eq_iff k j, h.0 w vertex, edge)),
    Ordered-Layered (placed ++ k ∷ []) ks h.1,
  )

  Ready-InOrder : (before ks : List String) → Ready g before (singles ks) → InOrder before ks
  Ready-InOrder before [] h = tt
  Ready-InOrder before (k ∷ ks) h = (
    (λ v edge. h.0 k v (ground (arith, eq_refl k)) edge),
    Ready-InOrder (before ++ k ∷ []) ks h.2,
  )

  pub IsOrder-InOrder :
      (order : List String) → IsWellFormed g → IsOrder g order → InOrder [] (reverse order)
  IsOrder-InOrder order wf o =
      let layers : IsLayering g (singles order) = record {
        partition = λ k. occ-singles k order ∙ o.whole k;
        layered = Ordered-Layered [] order o.ordered;
      } in
      Ready-InOrder [] (reverse order) (
        subst (λ ls. Ready g [] ls) (reverse-singles order)
          (IsLayering-Ready g (singles order) wf layers))

  sorted-only :
      (k : Option (Option (List String))) (order : List String)
      → elim k as (λ x. SortResult) [
        | none ↦ SortResult.out_of_fuel
        | some none ↦ SortResult.cyclic []
        | some (some o) ↦ sorted o
      ]
        ≡ sorted order
      → k ≡ some (some order)
  sorted-only none order h = absurd (ground arith)
  sorted-only (some none) order h = absurd (ground arith)
  sorted-only (some (some o)) order h = ground arith

  found-IsOrder :
      (order : List String) (r : Option (List String))
      → kahn g (size g) ≡ some r
      → kahn g (size g) ≡ some (some order)
      → ((o : List String) → r ≡ some o → IsOrder g o)
      → IsOrder g order
  found-IsOrder order r a b is =
      let same : some r ≡ some (some order) = sym a ∙ b in is order (ground arith)

  sorted_by :
      (d : Detected) (order : List String)
      → elim d as (λ x. SortResult) [
        | Detected.out_of_fuel ↦ SortResult.out_of_fuel
        | Detected.cycle path ↦ SortResult.cyclic path
        | Detected.clear s ↦ elim (kahn g (size g)) as (λ x. SortResult) [
          | none ↦ SortResult.out_of_fuel
          | some none ↦ SortResult.cyclic []
          | some (some o) ↦ sorted o
        ]
      ]
        ≡ sorted order
      → kahn g (size g) ≡ some (some order)
  sorted_by Detected.out_of_fuel order h = absurd (ground arith)
  sorted_by (Detected.cycle path) order h = absurd (ground arith)
  sorted_by (Detected.clear s) order h = sorted-only (kahn g (size g)) order h

  pub topological_sort-IsOrder :
      (order : List String) → IsWellFormed g → topological_sort g ≡ sorted order → IsOrder g order
  unfolding topological_sort
  topological_sort-IsOrder order wf h =
      let (r, eq, is) = kahn-IsOrder g wf (size g) (omega arith) in
      found-IsOrder order r eq (sorted_by (detect_cycle_with_path g (size g)) order h) is
