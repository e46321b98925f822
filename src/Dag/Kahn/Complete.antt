-- ===== src/Dag/Kahn/Complete.antt =====
-- Kahn's loop sorts every vertex of a graph that can be ordered (common/dag/dag.go: TopologicalSort).
use cfm.Prelude.{
  ℕ, ◌≤◌, ◌<◌, ◌≡◌, String, true, List, [], ◌∷◌, ◌++◌, Map, arith, occ, ℤ, length, contains, has,
  eq_iff, eq_refl, contains-occ, occ-contains, some, occ-append, occ-once, length-le,
  sum_of-support, ap,
}
use cfm.Dag.{Graph, keys, edges_of}
use cfm.Dag.WellFormed.{IsWellFormed, has-occ}
use cfm.Dag.Sort.{kahn, checked}
use cfm.Dag.Kahn.{Ordered, Draining, IsOrder, drain-Draining, start-Draining}

module _ {ℓ} {T : Type ℓ} (g : Graph T) (wf : IsWellFormed g) where
  module _ (deg : Map ℤ) (order : List String) (d : Draining g deg [] order) where
    order-once : (k : String) → occ k order ≤ 1
    order-once k = ground (arith, d.free k)

    -- A vertex whose predecessors were all sorted was sorted.
    sorted_behind :
        (k : String)
        → has g.vertices k ≡ true
        → ((w : String)
            → has g.vertices w ≡ true
            → contains k (edges_of g w) ≡ true
            → 0 < occ w order)
        → 0 < occ k order
    sorted_behind k there behind = ground (
      arith,
      d.free k,
      d.balance k,
      has-occ g.vertices k,
      sum_of-support (λ w. occ k (edges_of g w)) (keys g.vertices) order wf.once order-once
          (λ w here adds.
            behind w (ground (arith, has-occ g.vertices w, occ-contains w (keys g.vertices)))
              (occ-contains k (edges_of g w) adds)),
    )

    all_sorted :
        (placed ks : List String)
        → Ordered g placed ks
        → ((k : String) → contains k ks ≡ true → has g.vertices k ≡ true)
        → ((k : String) → 0 < occ k placed → 0 < occ k order)
        → (k : String) → contains k ks ≡ true
        → 0 < occ k order
    all_sorted placed [] h vertices before k there = cc
    all_sorted placed (u ∷ us) h vertices before k there =
        let here : 0 < occ u order =
          sorted_behind u (vertices u (ground (arith, eq_refl u)))
            (λ w vertex edge. before w (h.0 w vertex edge)) in
        ground (
          arith,
          eq_iff u k,
          here,
          all_sorted (placed ++ u ∷ []) us h.1 (λ j in_us. vertices j (ground arith))
              (λ j earlier.
                ground (arith, occ-append j placed (u ∷ []), before j, eq_iff u j, here))
              k,
        )

    module _ (ks : List String) (ordered : Ordered g [] ks)
        (whole : (k : String) → occ k ks ≡ occ k (keys g.vertices)) where
      complete : (k : String) → occ k order ≡ occ k (keys g.vertices)
      complete k = ground (
        arith,
        d.free k,
        contains-occ k (keys g.vertices),
        occ-once k (keys g.vertices) (wf.once k),
        whole k,
        occ-contains k ks,
        λ (there : contains k ks ≡ true).
            all_sorted [] ks ordered
              (λ j in_ks. ground (
                arith,
                whole j,
                contains-occ j ks,
                has-occ g.vertices j,
                occ-contains j (keys g.vertices),
              ))
              (λ j h. absurd (omega arith)) k there,
      )

      complete-IsOrder : IsOrder g order
      complete-IsOrder = record { whole = complete; ordered = d.ordered }

      complete-checked : checked g order ≡ some order
      complete-checked = ground (
        arith,
        length-le order (keys g.vertices) wf.once (λ k. omega (arith, complete k)),
        length-le (keys g.vertices) order order-once (λ k. omega (arith, complete k)),
      )

  pub kahn_complete :
      (fuel : ℕ)
      → length (keys g.vertices) ≤ fuel
      → (ks : List String) → Ordered g [] ks
      → ((k : String) → occ k ks ≡ occ k (keys g.vertices))
      → (order : List String) × (kahn g fuel ≡ some (some order)) × IsOrder g order
  unfolding kahn
  kahn_complete fuel h ks ordered whole =
      let (deg, order, eq, d) =
        drain-Draining g wf fuel _ _ [] (start-Draining g wf) (omega arith) in
      (
        order,
        rw (kahn, eq) (ap some (complete-checked deg order d ks ordered whole)),
        complete-IsOrder deg order d ks ordered whole,
      )
