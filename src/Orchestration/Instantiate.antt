-- ===== src/Orchestration/Instantiate.antt =====
-- InstantiateOrchestration (pmanager/api/types.go).
pub mod Graphs
pub mod Staged
pub mod Outcome
use cfm.Prelude.{
  ℕ, String, Bool, true, false, Option, none, some, List, [], ◌∷◌, ◌++◌, Map, merge, has,
  if◌then◌else◌, str_eq, reverse, map, lookup,
}
use cfm.Json.{Value}
use cfm.Errors.{Error, plain, bad_request, Result, ok, err, ◌>>=◌}
use cfm.Dag.{Graph, new_graph, add_vertex, add_edge}
use cfm.Dag.Sort.{ParallelSortResult, leveled, stopped, parallel_topological_sort}
use cfm.Orchestration.{initialized, Activity, OrchestrationStep, Orchestration}

-- for _, activity := range activities { graph.AddVertex(activity.ID, &activity) }
unfoldable pub add_activities : Graph Activity → List Activity → Graph Activity
unfolding add_vertex
add_activities g [] = g
add_activities g (a ∷ as') = add_activities (add_vertex g a.id a) as'

-- The loop over an activity's dependencies.
unfoldable pub add_dependencies : Graph Activity → String → List String → Result (Graph Activity)
unfolding add_edge
add_dependencies g id [] = ok g
add_dependencies g id (d ∷ ds) =
    let rest = add_dependencies (add_edge g id d) id ds in
    if has g.vertices d then rest else err (plain "dependency not found")

unfoldable pub connect : Graph Activity → List Activity → Result (Graph Activity)
unfolding add_dependencies
connect g [] = ok g
connect g (a ∷ as') = add_dependencies g a.id a.depends_on >>= (λ g'. connect g' as')

-- The values of a level's vertices.
unfoldable pub values : Graph Activity → List String → List Activity
values g [] = []
values g (id ∷ ids) = elim (lookup g.vertices id) [
  | none ↦ values g ids
  | some u ↦ u.value ∷ values g ids
]

abbrev pub to_step : Graph Activity → List String → OrchestrationStep
to_step g level = record { activities = values g level }

-- sorted.HasCycle is an error; the levels are taken in reverse.
unfoldable pub steps_of : Graph Activity → Result (List OrchestrationStep)
unfolding parallel_topological_sort values
steps_of g = elim (parallel_topological_sort g) [
  | leveled order levels ↦ ok (map (to_step g) (reverse levels))
  | ParallelSortResult.cyclic path ↦ err (plain "cycle detected in orchestration definition")
  | stopped order levels ↦ err (plain "cycle detected in orchestration definition")
  | ParallelSortResult.out_of_fuel ↦ err (plain "cycle detected in orchestration definition")
]

-- `now` is the clock's time.
abbrev pub new_orchestration :
    ℕ → String → String → String → String → Map Value → List OrchestrationStep → Orchestration
new_orchestration now id correlation_id type definition_id payload steps = record {
  id = id;
  correlation_id = correlation_id;
  definition_id = definition_id;
  state = initialized;
  state_timestamp = now;
  created_timestamp = now;
  orchestration_type = type;
  steps = steps;
  processing_data = merge [] payload;
  output_data = [];
  completed = [];
  engine_state = record { trace_context = ""; attempts = []; retries = []; error = [] };
  origin_trace_context = none;
  compensated_orchestration_id = "";
}

unfoldable pub instantiate_steps : List Activity → Result (List OrchestrationStep)
unfolding add_activities connect steps_of
instantiate_steps activities = connect (add_activities new_graph activities) activities >>= steps_of

unfoldable pub instantiate_orchestration :
    ℕ → String → String → String → String → List Activity → Map Value → Result Orchestration
unfolding instantiate_steps
instantiate_orchestration now id correlation_id type definition_id activities payload =
    if str_eq definition_id ""
    then err (bad_request "Validation error at path [definitionID]: cannot be empty")
    else instantiate_steps activities
      >>= (λ steps. ok (new_orchestration now id correlation_id type definition_id payload steps))
