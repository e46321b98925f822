-- ===== src/Orchestration/Instantiate/Graphs.antt =====
-- The graph that InstantiateOrchestration builds (pmanager/api/types.go): its vertices are the first activities
-- with their IDs, and its edges are the dependencies.
pub mod Known
use cfm.Prelude.{
  ℕ, ◌≤◌, ◌<◌, ◌≡◌, refl, String, Bool, true, false, ◌&&◌, ◌||◌, Option, none, some, List, [], ◌∷◌,
  ◌++◌, arith, occ, bit, contains, has, every, subst, if◌then◌else◌, str_eq, eq_iff, eq_refl,
  lookup, insert, lookup-insert, is_some, map, some_of, inl, inr, Bool-cases, Option-cases,
  occ-contains, contains-occ, occ-append, ◌∙◌, sym, keep,
}
use cfm.Errors.{Error, Result, ok, err, ◌>>=◌, bind-ok, if-ok}
use cfm.Dag.{
  Vertex, Graph, keys, new_graph, add_vertex, new_vertex, add_edge, append_edge, edges_of,
}
use cfm.Dag.WellFormed.{
  IsWellFormed, add_vertex-IsWellFormed, add_edge-IsWellFormed, edges_of-insert, edges_of-found,
  new_graph-IsWellFormed,
}
use cfm.Dag.Edges.{
  value_of, or_else, value_of-add_vertex, Connected, nothing-Connected, trans-Connected,
  add_edge-Connected, has-kept,
}
use cfm.Orchestration.{Activity}
use cfm.Orchestration.Instantiate.{add_activities, add_dependencies, connect}

-- the first activity with an ID
abbrev pub find_activity : List Activity → String → Option Activity
find_activity [] k = none
find_activity (a ∷ as') k = if str_eq a.id k then some a else find_activity as' k

-- Does an activity with ID `u` depend on `v`?
abbrev pub depends : List Activity → String → String → Bool
depends activities u v = some_of (λ a. str_eq a.id u && contains v a.depends_on) activities

value_of-add_activities :
    (g : Graph Activity) (activities : List Activity) (k : String)
    → value_of (add_activities g activities) k ≡ or_else (value_of g k) (find_activity activities k)
unfolding add_activities
value_of-add_activities g [] k = ground arith
value_of-add_activities g (a ∷ as') k =
    ground
      (arith, value_of-add_vertex g a.id a k, value_of-add_activities (add_vertex g a.id a) as' k)

add_dependencies-Connected :
    (g g' : Graph Activity) (id : String) (ds : List String)
    → IsWellFormed g
    → has g.vertices id ≡ true
    → add_dependencies g id ds ≡ ok g'
    → Connected g g' (λ u v. str_eq id u && contains v ds)
unfolding add_dependencies
add_dependencies-Connected g g' id [] wf here h =
    nothing-Connected g g' (λ u v. str_eq id u && contains v []) wf h (λ u v. ground arith)
add_dependencies-Connected g g' id (d ∷ ds) wf here h =
    let (there, later) = if-ok (has g.vertices d) _ _ h in
    let first : Connected g (add_edge g id d) (λ u v. str_eq id u && str_eq d v) =
      add_edge-Connected g id d wf here there in
    trans-Connected g (add_edge g id d) g' _ _ _ first
      (add_dependencies-Connected (add_edge g id d) g' id ds first.well_formed
        (has-kept g (add_edge g id d) id (first.kept id) ∙ here) later)
      (λ u v. ground arith)

pub connect-Connected :
    (g g' : Graph Activity) (activities : List Activity)
    → IsWellFormed g
    → ((k : String) → is_some (find_activity activities k) ≡ true → has g.vertices k ≡ true)
    → connect g activities ≡ ok g'
    → Connected g g' (depends activities)
unfolding connect
connect-Connected g g' [] wf there h = nothing-Connected g g' (depends []) wf h (λ u v. refl)
connect-Connected g g' (a ∷ as') wf there h =
    let (g'', first_eq, later) = bind-ok (add_dependencies g a.id a.depends_on) _ h in
    let first : Connected g g'' (λ u v. str_eq a.id u && contains v a.depends_on) =
      add_dependencies-Connected g g'' a.id a.depends_on wf
        (there a.id (ground (arith, eq_refl a.id))) first_eq in
    trans-Connected g g'' g' _ _ _ first
      (connect-Connected g'' g' as' first.well_formed
        (λ k found. has-kept g g'' k (first.kept k) ∙ there k (ground (arith, found))) later)
      (λ u v. refl)

-- Is every dependency the ID of an activity?
abbrev pub all_known : List Activity → List Activity → Bool
all_known given activities =
    every (λ a. every (λ d. is_some (find_activity given d)) a.depends_on) activities
