-- ===== src/Examples/Dag.antt =====
-- Samples for the dependency graph and the instantiation of orchestrations.
use cfm.Prelude.{ℕ, ◌≡◌, refl, String, true, false, List, [], ◌∷◌, str_eq, lookup, insert, ◌↔◌}
use cfm.Errors.{ok}
use cfm.Dag.{Graph, new_graph, add_vertex, add_edge}
use cfm.Dag.WellFormed.{
  IsWellFormed, new_graph-IsWellFormed, operations-IsWellFormed, add_vertex-IsWellFormed,
  add_edge-IsWellFormed,
}
use cfm.Dag.Walks.{IsCycle}
use cfm.Dag.Sort.{ParallelSortResult, leveled, parallel_topological_sort}
use cfm.Dag.Correct.{Sorts, parallel_topological_sort-Sorts}
use cfm.Dag.Acyclic.{parallel_topological_sort_iff}
use cfm.Orchestration.{Activity, Orchestration, get_next_step_activities}
use cfm.Orchestration.Instantiate.{instantiate_orchestration, instantiate_steps, new_orchestration}
use cfm.Orchestration.Instantiate.Graphs.{all_known}
use cfm.Orchestration.Instantiate.Staged.{Staged}
use cfm.Orchestration.Instantiate.Outcome.{
  IsDependencyCycle, instantiate_orchestration-Staged, instantiate_orchestration_iff,
}
use cfm.Engine.Orchestrator.{get_initial_activities}
use cfm.Engine.Orchestrator.Ready.{DependOn, ids_through, published-DependOn}

abbrev vertices : Graph ℕ
vertices = add_vertex (add_vertex (add_vertex new_graph "a" 1) "b" 2) "c" 3

abbrev diamond : Graph ℕ
diamond = add_edge (add_edge (add_edge vertices "a" "b") "a" "c") "b" "c"

diamond-IsWellFormed : IsWellFormed diamond
diamond-IsWellFormed = add_edge-IsWellFormed _ "b" "c" (
    add_edge-IsWellFormed _ "a" "c" (
      add_edge-IsWellFormed vertices "a" "b" (
        add_vertex-IsWellFormed _ "c" 3 (
          add_vertex-IsWellFormed _ "b" 2
            (add_vertex-IsWellFormed new_graph "a" 1 new_graph-IsWellFormed)))))

diamond_sorted :
    parallel_topological_sort diamond
    ≡ leveled ("a" ∷ "b" ∷ "c" ∷ []) (("a" ∷ []) ∷ ("b" ∷ []) ∷ ("c" ∷ []) ∷ [])
unfolding parallel_topological_sort add_vertex add_edge lookup insert
diamond_sorted = refl

ring_refused :
    parallel_topological_sort (add_edge diamond "c" "a")
    ≡ ParallelSortResult.cyclic ("a" ∷ "b" ∷ "c" ∷ "a" ∷ [])
unfolding parallel_topological_sort add_vertex add_edge lookup insert
ring_refused = refl

operations-IsWellFormed_example :
    ((id : String) (value : ℕ) → IsWellFormed (add_vertex diamond id value))
    × ((from to : String) → IsWellFormed (add_edge diamond from to))
operations-IsWellFormed_example = operations-IsWellFormed diamond diamond-IsWellFormed

parallel_topological_sort-Sorts_example : Sorts diamond (parallel_topological_sort diamond)
parallel_topological_sort-Sorts_example =
    parallel_topological_sort-Sorts diamond diamond-IsWellFormed

parallel_topological_sort_iff_example :
    ((order : List String) × (levels : List (List String)) × (parallel_topological_sort diamond
        ≡ leveled order levels))
    ↔ ((path : List String) → ¬ IsCycle diamond path)
parallel_topological_sort_iff_example = parallel_topological_sort_iff diamond diamond-IsWellFormed

abbrev deploy : Activity
deploy = record {
  id = "deploy";
  type = "deploy";
  discriminator = "d";
  depends_on = "network" ∷ "vault" ∷ [];
}

abbrev network : Activity
network = record { id = "network"; type = "network"; discriminator = "d"; depends_on = [] }

abbrev vault : Activity
vault = record { id = "vault"; type = "vault"; discriminator = "d"; depends_on = "network" ∷ [] }

abbrev given : List Activity
given = deploy ∷ network ∷ vault ∷ []

abbrev made : Orchestration
made = new_orchestration 7 "o" "p" "deploy" "def" [] (
    record { activities = network ∷ [] }
    ∷ record { activities = vault ∷ [] }
    ∷ record { activities = deploy ∷ [] }
    ∷ [])

given-made : instantiate_orchestration 7 "o" "p" "deploy" "def" given [] ≡ ok made
unfolding instantiate_orchestration lookup insert
given-made = refl

-- The second activity with an ID is dropped.
duplicate_dropped :
    instantiate_steps (network ∷ record vault { id = "network"; depends_on = [] } ∷ [])
    ≡ ok (record { activities = network ∷ [] } ∷ [])
unfolding instantiate_steps lookup insert
duplicate_dropped = refl

instantiate_orchestration-Staged_example :
    Staged given made.steps × (made ≡ new_orchestration 7 "o" "p" "deploy" "def" [] made.steps)
instantiate_orchestration-Staged_example =
    instantiate_orchestration-Staged 7 "o" "p" "deploy" "def" given [] made given-made

instantiate_orchestration_iff_example :
    ((o : Orchestration) × (instantiate_orchestration 7 "o" "p" "deploy" "def" given [] ≡ ok o)) ↔ (
      (str_eq "def" "" ≡ false)
      × (all_known given given ≡ true)
      × ((path : List String) → ¬ IsDependencyCycle given path))
instantiate_orchestration_iff_example =
    instantiate_orchestration_iff 7 "o" "p" "deploy" "def" given []

published-DependOn_example :
    DependOn given [] (get_initial_activities made)
    × ((k : String) → DependOn given (ids_through made.steps k) (get_next_step_activities made k))
published-DependOn_example =
    published-DependOn 7 "o" "p" "deploy" "def" given [] made given-made made refl
