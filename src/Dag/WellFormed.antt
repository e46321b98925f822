-- ===== src/Dag/WellFormed.antt =====
-- What the operations that build a graph keep (common/dag/dag.go).
use cfm.Prelude.{
  ◌+◌, ◌≤◌, ◌≡◌, refl, String, true, some, [], ◌∷◌, ◌++◌, Map, lookup, insert, has, arith, occ, bit,
  contains, if◌then◌else◌, lookup-insert, eq_iff, Option-cases, Bool-cases, ◌⊎◌, inl, inr, str_eq,
  occ-append, contains-occ, occ-contains,
}
use cfm.Dag.{
  Vertex, Graph, keys, new_graph, add_vertex, new_vertex, add_edge, append_edge, edges_of,
}

-- Every ID is a key once, and the edges of a vertex lead to different vertices of the graph.
pub record IsWellFormed {ℓ} {T : Type ℓ} (g : Graph T) : Type ℓ where
  pub once : (k : String) → occ k (keys g.vertices) ≤ 1
  pub closed : (u v : String) → contains v (edges_of g u) ≡ true → has g.vertices v ≡ true
  pub distinct : (u v : String) → occ v (edges_of g u) ≤ 1

module _ {ℓ} {V : Type ℓ} where
  pub has-occ : (m : Map V) (k : String) → has m k ≡ contains k (keys m)
  unfolding lookup
  has-occ [] k = refl
  has-occ ((j, v) ∷ m) k = ground (arith, has-occ m k)

  pub occ-insert :
      (m : Map V) (j k : String) (v : V)
      → occ k (keys (insert m j v)) ≡ (if has m j then 0 else bit (str_eq j k)) + occ k (keys m)
  unfolding insert lookup
  occ-insert [] j k v = ground arith
  occ-insert ((i, w) ∷ m) j k v = ground (arith, eq_iff i j, occ-insert m j k v)

module _ {ℓ} {T : Type ℓ} where
  pub edges_of-insert :
      (g : Graph T) (j k : String) (u : Vertex T)
      → edges_of (record { vertices = insert g.vertices j u }) k
        ≡ (if str_eq j k then u.edges else edges_of g k)
  unfolding edges_of
  edges_of-insert g j k u = ground (arith, lookup-insert g.vertices j k u)

  pub new_graph-IsWellFormed : IsWellFormed (new_graph {T = T})
  unfolding edges_of lookup
  new_graph-IsWellFormed = record {
    once = λ k. omega arith;
    closed = λ u v h. cc;
    distinct = λ u v. omega arith;
  }

  -- Storing a vertex whose edges are distinct and lead to vertices of the graph or to itself.
  insert-IsWellFormed :
      (g : Graph T) (j : String) (u : Vertex T)
      → IsWellFormed g
      → ((v : String) → contains v u.edges ≡ true → has g.vertices v ≡ true)
      → ((v : String) → occ v u.edges ≤ 1)
      → IsWellFormed (record { vertices = insert g.vertices j u })
  insert-IsWellFormed g j u wf closed distinct = record {
    once = λ k. ground (
      arith,
      occ-insert g.vertices j k u,
      has-occ g.vertices j,
      eq_iff j k,
      wf.once k,
      occ-contains j (keys g.vertices),
      occ-contains k (keys g.vertices),
    );
    closed = λ a v h. ground (
      arith,
      lookup-insert g.vertices j v u,
      edges_of-insert g j a u,
      closed v,
      wf.closed a v,
      h,
    );
    distinct = λ a v. ground (arith, edges_of-insert g j a u, distinct v, wf.distinct a v);
  }

  pub add_vertex-IsWellFormed :
      (g : Graph T) (id : String) (value : T)
      → IsWellFormed g
      → IsWellFormed (add_vertex g id value)
  unfolding add_vertex
  add_vertex-IsWellFormed g id value wf = elim (Bool-cases (has g.vertices id)) [
    | inl found ↦ rw found wf
    | inr missing ↦
        rw missing
          (insert-IsWellFormed g id (new_vertex id value) wf (λ v h. cc) (λ v. omega arith))
  ]

  append_edge-distinct :
      (u : Vertex T) (to v : String) → occ v u.edges ≤ 1 → occ v (append_edge u to).edges ≤ 1
  append_edge-distinct u to v h =
      ground (arith, occ-append v u.edges (to ∷ []), occ-contains v u.edges, eq_iff to v)

  append_edge-closed :
      (u : Vertex T) (to v : String)
      → contains v (append_edge u to).edges ≡ true
      → (contains v u.edges ≡ true) ⊎ (to ≡ v)
  append_edge-closed u to v h = ground (
    arith,
    occ-append v u.edges (to ∷ []),
    eq_iff to v,
    contains-occ v (u.edges ++ to ∷ []),
    occ-contains v u.edges,
  )

  pub edges_of-found :
      (g : Graph T) (k : String) (u : Vertex T)
      → lookup g.vertices k ≡ some u
      → edges_of g k ≡ u.edges
  unfolding edges_of
  edges_of-found g k u found = rw (edges_of, found) refl

  pub add_edge-IsWellFormed :
      (g : Graph T) (from to : String) → IsWellFormed g → IsWellFormed (add_edge g from to)
  unfolding add_edge
  add_edge-IsWellFormed g from to wf = elim (Option-cases (lookup g.vertices from)) [
    | inl missing ↦ rw (add_edge, missing) wf
    | inr (u, found) ↦ rw (add_edge, found) (stored u found)
  ]
    where
      stored :
          (u : Vertex T)
          → lookup g.vertices from ≡ some u
          → IsWellFormed (
              if has g.vertices to
              then record { vertices = insert g.vertices from (append_edge u to) }
              else g)
      stored u found = elim (Bool-cases (has g.vertices to)) [
        | inr missing ↦ rw missing wf
        | inl there ↦
            let edges : edges_of g from ≡ u.edges = edges_of-found g from u found in
            rw there (
              insert-IsWellFormed g from (append_edge u to) wf
                (λ v h. elim (append_edge-closed u to v h) [
                  | inl old ↦ wf.closed from v (rw edges old)
                  | inr new ↦ rw (← new) there
                ])
                (λ v. append_edge-distinct u to v (rw (← edges) (wf.distinct from v))))
      ]

  -- AddVertex and AddEdge keep a graph well-formed: every ID is a key once, and the edges of a vertex lead
  -- to different vertices of the graph.
  pub operations-IsWellFormed :
      (g : Graph T)
      → IsWellFormed g
      → ((id : String) (value : T) → IsWellFormed (add_vertex g id value))
        × ((from to : String) → IsWellFormed (add_edge g from to))
  operations-IsWellFormed g wf = (
    λ id value. add_vertex-IsWellFormed g id value wf,
    λ from to. add_edge-IsWellFormed g from to wf,
  )
