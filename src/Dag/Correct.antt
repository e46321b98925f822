-- ===== src/Dag/Correct.antt =====
-- What ParallelTopologicalSort and TopologicalSort give (common/dag/dag.go).
use cfm.Prelude.{
  ◌+◌, ◌≤◌, ◌<◌, ◌≡◌, refl, String, true, List, [], ◌∷◌, ◌++◌, Map, arith, occ, bit, length,
  contains, has, eq_iff, eq_refl, insert, lookup, lookup-insert, occ-contains, sum_of_mono,
  length-sum_of, some, occ-append,
}
use cfm.Dag.{Graph, keys}
use cfm.Dag.WellFormed.{IsWellFormed, has-occ}
use cfm.Dag.Cycles.{
  Mark, unvisited, is_unvisited, Search, mark_of, Detected, clear, cycle, all_unvisited,
  detect_cycle_with_path,
}
use cfm.Dag.Walks.{Edge, IsCycle}
use cfm.Dag.Searching.{Searching, Searched, Closed, fresh}
use cfm.Dag.Detection.{detect_all-Searched}
use cfm.Dag.Kahn.{Ordered, IsOrder}
use cfm.Dag.Kahn.Complete.{kahn_complete}
use cfm.Dag.Levels.{IsLayering, levels_of-IsLayering}
use cfm.Dag.Sort.{
  size, SortResult, sorted, ParallelSortResult, leveled, stopped, topological_sort, kahn, levels_of,
  layers, leveled_order, parallel_topological_sort,
}

mark_of-all_unvisited :
    (ids : List String) (marks : Map Mark) (parents : Map String) (k : String)
    → mark_of (record { marks = marks; parents = parents }) k ≡ unvisited
    → mark_of (record { marks = all_unvisited ids marks; parents = parents }) k ≡ unvisited
unfolding all_unvisited
mark_of-all_unvisited [] marks parents k h = h
mark_of-all_unvisited (id ∷ ids) marks parents k h =
    mark_of-all_unvisited ids (insert marks id unvisited) parents k
      (ground (arith, lookup-insert marks id k unvisited, h))

module _ {ℓ} {T : Type ℓ} (g : Graph T) where
  -- What a result says of the graph.
  abbrev pub Sorts : ParallelSortResult → Type 0
  Sorts (leveled order levels) = IsOrder g order × IsLayering g levels
  Sorts (ParallelSortResult.cyclic path) = IsCycle g path
  Sorts (stopped order levels) = ⊥
  Sorts ParallelSortResult.out_of_fuel = ⊥

module _ {ℓ} {T : Type ℓ} (g : Graph T) (wf : IsWellFormed g) where
  abbrev start : Search
  start = record { marks = all_unvisited (keys g.vertices) []; parents = [] }

  start_mark : (k : String) → mark_of start k ≡ unvisited
  unfolding lookup
  start_mark k = mark_of-all_unvisited (keys g.vertices) [] [] k refl

  start-Searching : Searching g start [] []
  start-Searching = record {
    on_stack = λ k. ground (arith, start_mark k);
    finished = λ k. ground (arith, start_mark k);
    part = λ k. omega arith;
    chain = tt;
    closed = tt;
  }

  start_fuel : fresh g start ≤ length (keys g.vertices)
  start_fuel = omega (
    arith,
    length-sum_of (keys g.vertices),
    sum_of_mono (λ k. bit (is_unvisited (mark_of start k))) (λ _. 1)
        (λ k. ground (arith, start_mark k)) (keys g.vertices),
  )

  detected :
      Searched g [] []
        (fresh g start)
        (keys g.vertices)
        (detect_cycle_with_path g (length (keys g.vertices)))
  unfolding detect_cycle_with_path
  detected =
      detect_all-Searched g wf (length (keys g.vertices)) (keys g.vertices) start [] start-Searching
        (λ k there. ground (arith, has-occ g.vertices k)) start_fuel

  Closed-Edge :
      (us : List String) (w k : String)
      → Closed g us
      → contains w us ≡ true
      → Edge g w k
      → 0 < occ k us
  Closed-Edge [] w k closed there edge = cc
  Closed-Edge (u ∷ us) w k closed there edge =
      ground (arith, closed.0 k, eq_iff u w, edge, Closed-Edge us w k closed.1)

  -- Vertices whose edges lead behind them, once each, are in order.
  Closed-Ordered :
      (placed done : List String)
      → Closed g done
      → ((k : String) → occ k placed + occ k done ≤ 1)
      → ((k : String) → has g.vertices k ≡ true → 0 < occ k placed + occ k done)
      → Ordered g placed done
  Closed-Ordered placed [] closed once whole = tt
  Closed-Ordered placed (u ∷ us) closed once whole = (
    (λ w there edge. ground (
      arith,
      whole w there,
      once u,
      eq_refl u,
      eq_iff u w,
      closed.0 u,
      edge,
      occ-contains w us,
      λ (c : contains w us ≡ true). Closed-Edge us w u closed.1 c edge,
    )),
    Closed-Ordered (placed ++ u ∷ []) us closed.1
        (λ k. omega (arith, once k, occ-append k placed (u ∷ [])))
        (λ k there. omega (arith, whole k there, occ-append k placed (u ∷ []))),
  )

  pub topological_sort-cyclic :
      (path : List String)
      → detect_cycle_with_path g (size g) ≡ cycle path
      → topological_sort g ≡ SortResult.cyclic path
  unfolding topological_sort
  topological_sort-cyclic path eq = rw (topological_sort, eq) refl

  topological_sort-sorted :
      (s : Search) (order : List String)
      → detect_cycle_with_path g (size g) ≡ clear s
      → kahn g (size g) ≡ some (some order)
      → topological_sort g ≡ sorted order
  unfolding topological_sort
  topological_sort-sorted s order eq sorts = rw (topological_sort, eq, sorts) refl

  leveled_order-leveled :
      (order : List String) (levels : List (List String))
      → levels_of g (size g) order ≡ layers levels
      → leveled_order g order ≡ leveled order levels
  unfolding leveled_order
  leveled_order-leveled order levels builds = rw (leveled_order, builds) refl

  cyclic-Sorts :
      (path : List String)
      → detect_cycle_with_path g (size g) ≡ cycle path
      → IsCycle g path
      → Sorts g (parallel_topological_sort g)
  unfolding parallel_topological_sort
  cyclic-Sorts path eq h = rw (parallel_topological_sort, eq) h

  clear-Sorts :
      (s : Search) (done : List String)
      → detect_cycle_with_path g (size g) ≡ clear s
      → Searching g s [] done
      → ((k : String) → contains k (keys g.vertices) ≡ true → 0 < occ k done)
      → Sorts g (parallel_topological_sort g)
  unfolding parallel_topological_sort
  clear-Sorts s done eq d reached =
      let whole : (k : String) → occ k done ≡ occ k (keys g.vertices) =
        λ k. ground (arith, d.part k, wf.once k, reached k, occ-contains k (keys g.vertices)) in
      let in_order : Ordered g [] done =
        Closed-Ordered [] done d.closed (λ k. omega (arith, d.part k, wf.once k))
          (λ k there. ground (arith, reached k, has-occ g.vertices k)) in
      let (order, sorts, o) = kahn_complete g wf (size g) (omega arith) done in_order whole in
      let (levels, builds, l) = levels_of-IsLayering g wf order o (size g) (omega arith) in
      rw
        (
          parallel_topological_sort,
          eq,
          topological_sort-sorted s order eq sorts,
          leveled_order-leveled order levels builds,
        )
        (o, l)

  -- Searched, with the equation of what was searched.
  found-Sorts :
      (r : Detected)
      → detect_cycle_with_path g (size g) ≡ r
      → Searched g [] [] (fresh g start) (keys g.vertices) r
      → Sorts g (parallel_topological_sort g)
  found-Sorts (clear s) eq (done, d, less, old, reached) = clear-Sorts s done eq d reached
  found-Sorts (cycle path) eq h = cyclic-Sorts path eq h
  found-Sorts Detected.out_of_fuel eq h = absurd h

  -- ParallelTopologicalSort of a well-formed graph ends. It either returns every vertex once, in an order and in
  -- non-empty levels, with the vertices that have an edge to a vertex before it in both; or it returns the path of a
  -- cycle, a walk along edges that ends where it starts.
  pub parallel_topological_sort-Sorts : Sorts g (parallel_topological_sort g)
  parallel_topological_sort-Sorts = found-Sorts (detect_cycle_with_path g (size g)) refl detected
