-- ===== src/Dag/Acyclic.antt =====
-- A graph is sorted exactly if it has no cycle (common/dag/dag.go: ParallelTopologicalSort).
use cfm.Prelude.{
  ◌<◌, ◌≡◌, refl, String, true, false, List, [], ◌∷◌, ◌++◌, arith, occ, contains, has, eq_iff,
  eq_refl, inl, inr, str_eq, sym, contains-occ, occ-contains, subst, occ-append, Bool-cases, ◌↔◌,
}
use cfm.Dag.{Graph, keys, edges_of}
use cfm.Dag.WellFormed.{IsWellFormed, has-occ}
use cfm.Dag.Walks.{Edge, IsCycle, Walk}
use cfm.Dag.Kahn.{Follows}
use cfm.Dag.Levels.{IsLayering, Layered, flat}
use cfm.Dag.Sort.{ParallelSortResult, leveled, stopped, parallel_topological_sort}
use cfm.Dag.Correct.{Sorts, parallel_topological_sort-Sorts}

module _ {ℓ} {T : Type ℓ} (g : Graph T) where
  pub has-Edge : (u v : String) → Edge g u v → has g.vertices u ≡ true
  unfolding edges_of
  has-Edge u v edge = ground arith

  -- In a walk every vertex but the first has an edge from one of its vertices.
  Walk-before :
      (x : String) (xs : List String)
      → Walk g (x ∷ xs)
      → (k : String) → contains k xs ≡ true
      → (w : String) × (contains w (x ∷ xs) ≡ true) × Edge g w k
  Walk-before x [] walk k there = cc
  Walk-before x (y ∷ ys) walk k there = elim (Bool-cases (str_eq y k)) [
    | inl same ↦ (x, ground (arith, eq_refl x), subst (Edge g x) ((eq_iff y k).0 same) walk.0)
    | inr other ↦
        let (w, in_walk, edge) = Walk-before y ys walk.1 k (ground arith) in (w, ground arith, edge)
  ]

  cycle-before :
      (path : List String) (c : IsCycle g path) (k : String)
      → contains k path ≡ true
      → (w : String) × (contains w path ≡ true) × Edge g w k
  cycle-before path c k there =
      let split : contains k (c.start ∷ (c.inner ++ c.start ∷ [])) ≡ true =
        subst (λ p. contains k p ≡ true) c.closed there in
      let (w, in_walk, edge) =
        Walk-before c.start (c.inner ++ c.start ∷ []) (subst (Walk g) c.closed c.walk) k (
          ground (
            arith,
            split,
            occ-append k c.inner (c.start ∷ []),
            occ-contains k (c.inner ++ c.start ∷ []),
          )) in
      (w, subst (λ p. contains w p ≡ true) (sym c.closed) in_walk, edge)

  -- A vertex of a level is in no cycle that avoids the levels before it.
  level-acyclic :
      (placed l path : List String)
      → ((k : String) → contains k l ≡ true → Follows g placed k)
      → IsCycle g path
      → ((k : String) → 0 < occ k placed → contains k path ≡ false)
      → (k : String) → 0 < occ k l
      → contains k path ≡ false
  level-acyclic placed l path follows c before k there = elim (Bool-cases (contains k path)) [
    | inr off ↦ off
    | inl on ↦
        let (w, on_path, edge) = cycle-before path c k on in
        let gone : contains w path ≡ false =
          before w (follows k (occ-contains k l there) w (has-Edge w k edge) edge) in
        cc
  ]

  -- No vertex of a cycle is in a layering.
  Layered-acyclic :
      (placed : List String) (levels : List (List String))
      → Layered g placed levels
      → (path : List String) → IsCycle g path
      → ((k : String) → 0 < occ k placed → contains k path ≡ false)
      → (k : String) → 0 < occ k (flat levels)
      → contains k path ≡ false
  Layered-acyclic placed [] layered path c before k there = absurd (omega arith)
  Layered-acyclic placed (l ∷ ls) layered path c before k there = ground (
    arith,
    occ-append k l (flat ls),
    level-acyclic placed l path layered.1 c before k,
    Layered-acyclic (placed ++ l) ls layered.2 path c
        (λ j earlier. ground (
          arith,
          occ-append j placed l,
          before j,
          level-acyclic placed l path layered.1 c before j,
        ))
        k,
  )

  pub IsLayering-acyclic :
      (levels : List (List String))
      → IsLayering g levels
      → IsWellFormed g
      → (path : List String) → IsCycle g path
      → ⊥
  IsLayering-acyclic levels l wf path c =
      let on : contains c.start path ≡ true =
        subst (λ p. contains c.start p ≡ true) (sym c.closed) (ground (arith, eq_refl c.start)) in
      let (w, on_path, edge) = cycle-before path c c.start on in
      let off : contains w path ≡ false =
        Layered-acyclic [] levels l.layered path c (λ k h. absurd (omega arith)) w
          (ground (
            arith,
            l.partition w,
            has-occ g.vertices w,
            has-Edge w c.start edge,
            contains-occ w (keys g.vertices),
          )) in
      cc

  abbrev Leveled : ParallelSortResult → Type 0
  Leveled r = (order : List String) × (levels : List (List String)) × (r ≡ leveled order levels)

  uncyclic-Leveled :
      (r : ParallelSortResult) → Sorts g r → ((path : List String) → ¬ IsCycle g path) → Leveled r
  uncyclic-Leveled (leveled order levels) h none_of = (order, levels, refl)
  uncyclic-Leveled (ParallelSortResult.cyclic path) h none_of = absurd (none_of path h)
  uncyclic-Leveled (stopped order levels) h none_of = absurd h
  uncyclic-Leveled ParallelSortResult.out_of_fuel h none_of = absurd h

  -- ParallelTopologicalSort of a well-formed graph gives levels exactly if the graph has no cycle.
  pub parallel_topological_sort_iff :
      IsWellFormed g
      → ((order : List String) × (levels : List (List String)) × (parallel_topological_sort g
            ≡ leveled order levels))
        ↔ ((path : List String) → ¬ IsCycle g path)
  parallel_topological_sort_iff wf = (
    λ (order, levels, eq) path c.
        IsLayering-acyclic levels (subst (Sorts g) eq (parallel_topological_sort-Sorts g wf)).1 wf
          path c,
    uncyclic-Leveled (parallel_topological_sort g) (parallel_topological_sort-Sorts g wf),
  )
