-- ===== src/Dag/Edges.antt =====
-- What adding vertices and edges does to the values and the edges of a graph (common/dag/dag.go).
use cfm.Prelude.{
  ◌≡◌, refl, String, Bool, true, false, ◌&&◌, ◌||◌, Option, none, some, [], ◌∷◌, arith, contains,
  has, subst, if◌then◌else◌, str_eq, eq_iff, lookup, insert, lookup-insert, is_some, inl, inr,
  Option-cases, contains-append, ◌∙◌,
}
use cfm.Errors.{ok}
use cfm.Dag.{Vertex, Graph, add_vertex, new_vertex, add_edge, append_edge, edges_of}
use cfm.Dag.WellFormed.{IsWellFormed, add_edge-IsWellFormed, edges_of-insert, edges_of-found}

module _ {ℓ} {T : Type ℓ} where
  abbrev pub vertex_value : Option (Vertex T) → Option T
  vertex_value none = none
  vertex_value (some u) = some u.value

  abbrev pub value_of : Graph T → String → Option T
  value_of g k = vertex_value (lookup g.vertices k)

  abbrev pub or_else : Option T → Option T → Option T
  or_else none b = b
  or_else (some a) b = some a

  pub value_of-add_vertex :
      (g : Graph T) (id : String) (a : T) (k : String)
      → value_of (add_vertex g id a) k
        ≡ or_else (value_of g k) (if str_eq id k then some a else none)
  unfolding add_vertex
  value_of-add_vertex g id a k =
      ground (arith, lookup-insert g.vertices id k (new_vertex id a), eq_iff id k)

  value_of-stored :
      (g : Graph T) (from to k : String) (u : Vertex T)
      → lookup g.vertices from ≡ some u
      → value_of
          (if has g.vertices to
            then record { vertices = insert g.vertices from (append_edge u to) }
            else g)
          k
        ≡ value_of g k
  value_of-stored g from to k u found =
      ground (arith, lookup-insert g.vertices from k (append_edge u to), eq_iff from k, found)

  pub value_of-add_edge :
      (g : Graph T) (from to k : String) → value_of (add_edge g from to) k ≡ value_of g k
  unfolding add_edge
  value_of-add_edge g from to k = elim (Option-cases (lookup g.vertices from)) [
    | inl missing ↦ rw (add_edge, missing) refl
    | inr (u, found) ↦ rw (add_edge, found) (value_of-stored g from to k u found)
  ]

  edges_of-add_edge :
      (g : Graph T) (from to u v : String)
      → has g.vertices from ≡ true
      → has g.vertices to ≡ true
      → contains v (edges_of (add_edge g from to) u)
        ≡ contains v (edges_of g u) || (str_eq from u && str_eq to v)
  unfolding add_edge
  edges_of-add_edge g from to u v here there = elim (Option-cases (lookup g.vertices from)) [
    | inl missing ↦ absurd (ground (arith, missing, here))
    | inr (x, found) ↦
        rw (add_edge, found, there)
          (rw (edges_of-insert g from u (append_edge x to)) (
            ground (
              arith,
              edges_of-found g from x found,
              eq_iff from u,
              eq_iff to v,
              contains-append v x.edges (to ∷ []),
            )))
  ]

  pub has-value_of : (g : Graph T) (k : String) → has g.vertices k ≡ is_some (value_of g k)
  has-value_of g k = ground arith

  -- What adding edges to a graph gives.
  pub record Connected (g g' : Graph T) (added : String → String → Bool) : Type ℓ where
    pub kept : (k : String) → value_of g' k ≡ value_of g k
    pub edges : (u v : String) → contains v (edges_of g' u) ≡ contains v (edges_of g u) || added u v
    pub well_formed : IsWellFormed g'

  pub nothing-Connected :
      (g g' : Graph T) (added : String → String → Bool)
      → IsWellFormed g
      → ok g ≡ ok g'
      → ((u v : String) → added u v ≡ false)
      → Connected g g' added
  nothing-Connected g g' added wf h none_added =
      let same : g ≡ g' = cc in
      subst (λ x. Connected g x added) same
        (record {
          kept = λ k. refl;
          edges = λ u v. ground (arith, none_added u v);
          well_formed = wf;
        })

  pub trans-Connected :
      (g₁ g₂ g₃ : Graph T) (first second both : String → String → Bool)
      → Connected g₁ g₂ first
      → Connected g₂ g₃ second
      → ((u v : String) → both u v ≡ (first u v || second u v))
      → Connected g₁ g₃ both
  trans-Connected g₁ g₂ g₃ first second both c d union = record {
    kept = λ k. d.kept k ∙ c.kept k;
    edges = λ u v. ground (arith, d.edges u v, c.edges u v, union u v);
    well_formed = d.well_formed;
  }

  pub add_edge-Connected :
      (g : Graph T) (from to : String)
      → IsWellFormed g
      → has g.vertices from ≡ true
      → has g.vertices to ≡ true
      → Connected g (add_edge g from to) (λ u v. str_eq from u && str_eq to v)
  add_edge-Connected g from to wf here there = record {
    kept = value_of-add_edge g from to;
    edges = λ u v. edges_of-add_edge g from to u v here there;
    well_formed = add_edge-IsWellFormed g from to wf;
  }

  pub has-kept :
      (g g' : Graph T) (k : String)
      → value_of g' k ≡ value_of g k
      → has g'.vertices k ≡ has g.vertices k
  has-kept g g' k same = ground (arith, has-value_of g k, has-value_of g' k, same)
