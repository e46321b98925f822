-- ===== src/Dag/Kahn.antt =====
-- Kahn's loop of TopologicalSort (common/dag/dag.go): it ends, every vertex stands behind its predecessors, and
-- no vertex stands twice.
pub mod Complete
use cfm.Prelude.{
  ℕ, zero, suc, ◌+◌, ◌-◌, ◌≤◌, ◌<◌, ◌≡◌, refl, String, Bool, true, false, ◌&&◌, List, [], ◌∷◌, ◌++◌,
  Map, arith, occ, bit, sum_of, length, ℤ, pos, is_zero, nat_eq, contains, has, Option, none, some,
  occ-append, length-append, sum_of-append, sum_of-le, sum_of-whole, length-le, occ-keep, occ-once,
  occ-whole, subst, occ-contains, contains-occ, eq_iff, eq_refl, inl, inr, Bool-cases,
  if◌then◌else◌, str_eq,
}
use cfm.Dag.{Graph, keys, edges_of}
use cfm.Dag.WellFormed.{IsWellFormed, has-occ}
use cfm.Dag.Sort.{degree, in_degrees, reduce, without_incoming, drain, kahn, checked}
use cfm.Dag.Degrees.{Counts, incoming, in_degrees-Counts, freed, reduce-Counts, reduce-freed}

module _ {ℓ} {T : Type ℓ} (g : Graph T) where
  -- Every vertex with an edge to `k` has been placed.
  abbrev pub Follows : List String → String → Type 0
  Follows placed k =
      (w : String) → has g.vertices w ≡ true → contains k (edges_of g w) ≡ true → 0 < occ w placed

  -- Each vertex of a list follows those before it.
  abbrev pub Ordered : List String → List String → Type 0
  Ordered placed [] = Unit
  Ordered placed (k ∷ ks) = Follows placed k × Ordered (placed ++ k ∷ []) ks

  Ordered-snoc :
      (placed ks : List String) (k : String)
      → Ordered placed ks
      → Follows (placed ++ ks) k
      → Ordered placed (ks ++ k ∷ [])
  Ordered-snoc placed [] k h last =
      (λ w there edge. omega (arith, last w there edge, occ-append w placed []), tt)
  Ordered-snoc placed (j ∷ ks) k h last = (
    h.0,
    Ordered-snoc (placed ++ j ∷ []) ks k h.1 (λ w there edge. omega (
      arith,
      last w there edge,
      occ-append w placed (j ∷ ks),
      occ-append w placed (j ∷ []),
      occ-append w (placed ++ j ∷ []) ks,
    )),
  )

  -- The state of the loop: the edges from vertices that are not in the order are counted, and the vertices
  -- without such an edge are queued or in the order, once.
  pub record Draining (deg : Map ℤ) (queue order : List String) : Type 0 where
    pub left : String → ℕ
    pub counts : Counts deg left
    pub balance : (k : String) → left k + incoming g order k ≡ incoming g (keys g.vertices) k
    pub free :
        (k : String)
        → occ k queue + occ k order ≡ bit (contains k (keys g.vertices) && nat_eq (left k) 0)
    pub ordered : Ordered [] order

  -- What an order that is not refused for a cycle is.
  pub record IsOrder (order : List String) : Type 0 where
    pub whole : (k : String) → occ k order ≡ occ k (keys g.vertices)
    pub ordered : Ordered [] order

  checked-some :
      (order order' : List String)
      → checked g order ≡ some order'
      → (order ≡ order') × (length order ≡ length (keys g.vertices))
  checked-some order order' h = ground arith

  module _ (wf : IsWellFormed g) where
    once : (k : String) → occ k (keys g.vertices) ≤ 1
    once k = wf.once k

    start-Draining :
        Draining
          (in_degrees g (keys g.vertices))
          (without_incoming (in_degrees g (keys g.vertices)) (keys g.vertices))
          []
    start-Draining = record {
      left = incoming g (keys g.vertices);
      counts = in_degrees-Counts g (keys g.vertices);
      balance = λ k. omega arith;
      free = λ k. ground (
        arith,
        occ-keep (λ id. is_zero (degree (in_degrees g (keys g.vertices)) id)) k (keys g.vertices),
        in_degrees-Counts g (keys g.vertices) k,
        occ-once k (keys g.vertices) (once k),
      );
      ordered = tt;
    }

    module _ (deg : Map ℤ) (u : String) (queue order : List String)
        (d : Draining deg (u ∷ queue) order) where
      part : (k : String) → occ k (order ++ u ∷ []) ≤ occ k (keys g.vertices)
      part k =
          ground (arith, occ-append k order (u ∷ []), d.free k, contains-occ k (keys g.vertices))

      enough : (k : String) → occ k (edges_of g u) ≤ d.left k
      enough k = omega (
        arith,
        d.balance k,
        sum_of-append (λ w. occ k (edges_of g w)) order (u ∷ []),
        sum_of-le (λ w. occ k (edges_of g w)) (order ++ u ∷ []) (keys g.vertices) once part,
      )

      follows : Follows order u
      follows w there edge =
          sum_of-whole (λ v. occ u (edges_of g v)) order (keys g.vertices) once
            (λ k. omega (arith, part k, occ-append k order (u ∷ [])))
            (ground (arith, d.free u, eq_refl u, d.balance u)) w
            (ground (arith, has-occ g.vertices w, occ-once w (keys g.vertices) (once w)))
            (contains-occ u (edges_of g w) edge)

      step-Draining :
          Draining
            (reduce deg (edges_of g u) queue).0
            (reduce deg (edges_of g u) queue).1
            (order ++ u ∷ [])
      step-Draining = record {
        left = λ k. d.left k - occ k (edges_of g u);
        counts = reduce-Counts deg d.left (edges_of g u) queue d.counts enough;
        balance = λ k. omega (
          arith,
          d.balance k,
          enough k,
          sum_of-append (λ w. occ k (edges_of g w)) order (u ∷ []),
        );
        free = λ k. ground (
          arith,
          reduce-freed deg d.left (edges_of g u) queue d.counts enough k,
          d.free k,
          occ-append k order (u ∷ []),
          enough k,
          wf.closed u k,
          has-occ g.vertices k,
          occ-contains k (edges_of g u),
        );
        ordered = Ordered-snoc [] order u d.ordered follows;
      }

    placed-le :
        (deg : Map ℤ) (queue order : List String)
        → Draining deg queue order
        → length queue + length order ≤ length (keys g.vertices)
    placed-le deg queue order d = omega (
      arith,
      length-append queue order,
      length-le (queue ++ order) (keys g.vertices) once (λ k.
          ground (arith, occ-append k queue order, d.free k, contains-occ k (keys g.vertices))),
    )

    -- With a unit of fuel for each vertex that is not in the order, the loop ends.
    drain-Draining :
        (fuel : ℕ) (deg : Map ℤ) (queue order : List String)
        → Draining deg queue order
        → length (keys g.vertices) ≤ fuel + length order
        → (deg' : Map ℤ) × (order' : List String) × (drain g fuel deg queue order ≡ some order')
          × Draining deg' [] order'
    unfolding drain
    drain-Draining fuel deg [] order d h = (deg, order, refl, d)
    drain-Draining zero deg (u ∷ queue) order d h =
        absurd (omega (arith, placed-le deg (u ∷ queue) order d))
    drain-Draining (suc fuel) deg (u ∷ queue) order d h =
        drain-Draining fuel _ _ (order ++ u ∷ []) (step-Draining deg u queue order d)
          (omega (arith, length-append order (u ∷ [])))

    pub kahn-IsOrder :
        (fuel : ℕ)
        → length (keys g.vertices) ≤ fuel
        → (r : Option (List String)) × (kahn g fuel ≡ some r)
          × ((order : List String) → r ≡ some order → IsOrder order)
    unfolding kahn
    kahn-IsOrder fuel h =
        let (deg, order, eq, d) = drain-Draining fuel _ _ [] start-Draining (omega arith) in
        (
          checked g order,
          rw (kahn, eq) refl,
          λ order' same.
              let (eq', full) = checked-some order order' same in
              subst IsOrder eq' (record {
                whole =
                    occ-whole order (keys g.vertices) once
                      (λ k. ground (arith, d.free k, contains-occ k (keys g.vertices))) full;
                ordered = d.ordered;
              }),
        )
