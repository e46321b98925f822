-- ===== src/Orchestration/Instantiate/Graphs/Known.antt =====
-- When InstantiateOrchestration connects the graph (pmanager/api/types.go): if every dependency is known.
use cfm.Prelude.{
  ◌≡◌, refl, String, true, false, ◌&&◌, List, [], ◌∷◌, arith, contains, has, every, str_eq, eq_iff,
  eq_refl, is_some, ◌∙◌, lookup, lookup-insert,
}
use cfm.Errors.{ok, bind-ok, if-ok}
use cfm.Dag.{Graph, new_graph, new_vertex, add_vertex, add_edge, edges_of}
use cfm.Dag.WellFormed.{IsWellFormed, new_graph-IsWellFormed, add_vertex-IsWellFormed}
use cfm.Orchestration.{Activity}
use cfm.Orchestration.Instantiate.{add_activities, add_dependencies, connect}
use cfm.Dag.Edges.{value_of, value_of-add_edge, has-value_of, Connected}
use cfm.Orchestration.Instantiate.Graphs.{
  find_activity, all_known, value_of-add_activities, add_dependencies-Connected,
}

-- The vertices of a well-formed graph are the given activities.
pub record Represents (given : List Activity) (g : Graph Activity) : Type 0 where
  pub well_formed : IsWellFormed g
  pub same : (k : String) → value_of g k ≡ find_activity given k

pub Represents-has :
    (given : List Activity) (g : Graph Activity)
    → Represents given g
    → (k : String) → has g.vertices k ≡ is_some (find_activity given k)
Represents-has given g r k = ground (arith, has-value_of g k, r.same k)

add_activities-IsWellFormed :
    (g : Graph Activity) (as' : List Activity)
    → IsWellFormed g
    → IsWellFormed (add_activities g as')
unfolding add_activities
add_activities-IsWellFormed g [] wf = wf
add_activities-IsWellFormed g (a ∷ as') wf =
    add_activities-IsWellFormed (add_vertex g a.id a) as' (add_vertex-IsWellFormed g a.id a wf)

abbrev pub vertices_of : List Activity → Graph Activity
vertices_of given = add_activities new_graph given

pub vertices_of-Represents : (given : List Activity) → Represents given (vertices_of given)
unfolding lookup
vertices_of-Represents given = record {
  well_formed = add_activities-IsWellFormed new_graph given new_graph-IsWellFormed;
  same = λ k. value_of-add_activities new_graph given k;
}

edges_of-add_vertex :
    (g : Graph Activity) (a : Activity) (u v : String)
    → contains v (edges_of (add_vertex g a.id a) u) ≡ contains v (edges_of g u)
unfolding add_vertex edges_of
edges_of-add_vertex g a u v =
    ground (arith, lookup-insert g.vertices a.id u (new_vertex a.id a), eq_iff a.id u)

edges_of-add_activities :
    (g : Graph Activity) (as' : List Activity) (u v : String)
    → contains v (edges_of (add_activities g as') u) ≡ contains v (edges_of g u)
unfolding add_activities
edges_of-add_activities g [] u v = refl
edges_of-add_activities g (a ∷ as') u v =
    edges_of-add_activities (add_vertex g a.id a) as' u v ∙ edges_of-add_vertex g a u v

pub edges_of-vertices_of :
    (given : List Activity) (u v : String) → contains v (edges_of (vertices_of given) u) ≡ false
unfolding edges_of lookup
edges_of-vertices_of given u v = edges_of-add_activities new_graph given u v

add_dependencies-known :
    (given : List Activity) (g : Graph Activity) (id : String) (ds : List String)
    → ((k : String) → value_of g k ≡ find_activity given k)
    → every (λ d. is_some (find_activity given d)) ds ≡ true
    → (g' : Graph Activity) × (add_dependencies g id ds ≡ ok g')
unfolding add_dependencies
add_dependencies-known given g id [] same h = (g, refl)
add_dependencies-known given g id (d ∷ ds) same h =
    let there : has g.vertices d ≡ true = ground (arith, has-value_of g d, same d) in
    let (g', eq) =
      add_dependencies-known given (add_edge g id d) id ds
        (λ k. value_of-add_edge g id d k ∙ same k) (ground arith) in
    (g', rw there eq)

-- Adding dependencies keeps the vertices.
step-Represents :
    (given : List Activity) (g g' : Graph Activity) (a : Activity)
    → Represents given g
    → is_some (find_activity given a.id) ≡ true
    → add_dependencies g a.id a.depends_on ≡ ok g'
    → Represents given g'
step-Represents given g g' a r known eq =
    let c : Connected g g' (λ u v. str_eq a.id u && contains v a.depends_on) =
      add_dependencies-Connected g g' a.id a.depends_on r.well_formed
        (Represents-has given g r a.id ∙ known) eq in
    record { well_formed = c.well_formed; same = λ k. c.kept k ∙ r.same k }

pub connect-known :
    (given : List Activity) (g : Graph Activity) (as' : List Activity)
    → Represents given g
    → ((k : String) → is_some (find_activity as' k) ≡ true → is_some (find_activity given k) ≡ true)
    → all_known given as' ≡ true
    → (g' : Graph Activity) × (connect g as' ≡ ok g')
unfolding connect
connect-known given g [] r within h = (g, refl)
connect-known given g (a ∷ as') r within h =
    let (g₁, eq₁) = add_dependencies-known given g a.id a.depends_on r.same (ground arith) in
    let (g₂, eq₂) =
      connect-known given g₁ as'
        (step-Represents given g g₁ a r (within a.id (ground (arith, eq_refl a.id))) eq₁)
        (λ k found. within k (ground (arith, found))) (ground arith) in
    (g₂, rw eq₁ eq₂)

known-add_dependencies :
    (given : List Activity) (g g' : Graph Activity) (id : String) (ds : List String)
    → ((k : String) → value_of g k ≡ find_activity given k)
    → add_dependencies g id ds ≡ ok g'
    → every (λ d. is_some (find_activity given d)) ds ≡ true
unfolding add_dependencies
known-add_dependencies given g g' id [] same h = refl
known-add_dependencies given g g' id (d ∷ ds) same h =
    let (there, later) = if-ok (has g.vertices d) _ _ h in
    ground (
      arith,
      has-value_of g d,
      same d,
      known-add_dependencies given (add_edge g id d) g' id ds
          (λ k. value_of-add_edge g id d k ∙ same k) later,
    )

pub known-connect :
    (given : List Activity) (g g' : Graph Activity) (as' : List Activity)
    → Represents given g
    → ((k : String) → is_some (find_activity as' k) ≡ true → is_some (find_activity given k) ≡ true)
    → connect g as' ≡ ok g'
    → all_known given as' ≡ true
unfolding connect
known-connect given g g' [] r within h = refl
known-connect given g g' (a ∷ as') r within h =
    let (g₁, first, later) = bind-ok (add_dependencies g a.id a.depends_on) _ h in
    ground (
      arith,
      known-add_dependencies given g g₁ a.id a.depends_on r.same first,
      known-connect given g₁ g' as'
          (step-Represents given g g₁ a r (within a.id (ground (arith, eq_refl a.id))) first)
          (λ k found. within k (ground (arith, found))) later,
    )
