-- ===== src/Dag/Sort.antt =====
-- TopologicalSort and ParallelTopologicalSort (common/dag/dag.go) after the search for a cycle. A queue, an
-- order and a level hold pointers to vertices, which are their IDs.
use Prim.Native.String.{compare}
use Prim.Native.Nat.{Ordering}
use cfm.Prelude.{
  ℕ, zero, suc, String, Bool, true, false, Option, none, some, List, [], ◌∷◌, ◌++◌, Map, lookup,
  insert, if◌then◌else◌, contains, remove, ℤ, pos, is_zero, increment, decrement, nat_eq, length,
  from_option, keep,
}
use cfm.Dag.{Graph, keys, edges_of}
use cfm.Dag.Cycles.{Detected, detect_cycle_with_path}

-- inDegree[id], 0 for a missing key
abbrev pub degree : Map ℤ → String → ℤ
degree deg id = from_option (pos 0) (lookup deg id)

-- for _, id := range ids { inDegree[id] = 0 }
unfoldable pub zeros : Map ℤ → List String → Map ℤ
zeros deg [] = deg
zeros deg (id ∷ ids) = zeros (insert deg id (pos 0)) ids

-- for _, edge := range edges { inDegree[edge.ID]++ }
unfoldable pub count_edges : Map ℤ → List String → Map ℤ
count_edges deg [] = deg
count_edges deg (v ∷ vs) = count_edges (insert deg v (increment (degree deg v))) vs

-- The loop over the edges of a dequeued vertex.
unfoldable pub reduce : Map ℤ → List String → List String → Map ℤ × List String
reduce deg [] queue = (deg, queue)
reduce deg (v ∷ vs) queue =
    let deg' = insert deg v (decrement (degree deg v)) in
    reduce deg' vs (if is_zero (degree deg' v) then queue ++ v ∷ [] else queue)

abbrev pub without_incoming : Map ℤ → List String → List String
without_incoming deg ids = keep (λ id. is_zero (degree deg id)) ids

-- The loop over the edges of a vertex of the current level, for a `remaining` map with these keys.
unfoldable pub reduce_remaining : Map ℤ → List String → List String → Map ℤ
reduce_remaining deg remaining [] = deg
reduce_remaining deg remaining (v ∷ vs) =
    reduce_remaining (if contains v remaining then insert deg v (decrement (degree deg v)) else deg)
      remaining vs

module _ {ℓ} {T : Type ℓ} (g : Graph T) where
  -- the loop of count_edges over vertices
  unfoldable pub count_all : Map ℤ → List String → Map ℤ
  unfolding count_edges edges_of
  count_all deg [] = deg
  count_all deg (u ∷ us) = count_all (count_edges deg (edges_of g u)) us

  unfoldable pub in_degrees : List String → Map ℤ
  unfolding zeros count_all
  in_degrees ids = count_all (zeros [] ids) ids

  -- The loop over the queue: the sorted order, or none when the fuel is used up.
  unfoldable pub drain : ℕ → Map ℤ → List String → List String → Option (List String)
  unfolding reduce edges_of
  drain fuel deg [] order = some order
  drain zero deg (u ∷ queue) order = none
  drain (suc fuel) deg (u ∷ queue) order =
      let (deg', queue') = reduce deg (edges_of g u) queue in
      drain fuel deg' queue' (order ++ u ∷ [])

  -- What TopologicalSort returns once no cycle was found: the order, and nothing for a cycle.
  abbrev pub checked : List String → Option (List String)
  checked order = if nat_eq (length order) (length (keys g.vertices)) then some order else none

  unfoldable pub kahn : ℕ → Option (Option (List String))
  unfolding drain in_degrees
  kahn fuel =
      let ids = keys g.vertices in
      elim (drain fuel (in_degrees ids) (without_incoming (in_degrees ids) ids) []) [
        | none ↦ none
        | some order ↦ some (checked order)
      ]

  -- The loop over the current level.
  unfoldable pub release : Map ℤ → List String → List String → Map ℤ × List String
  unfolding reduce_remaining edges_of
  release deg remaining [] = (deg, remaining)
  release deg remaining (u ∷ level) =
      let rest = remove u remaining in release (reduce_remaining deg rest (edges_of g u)) rest level

abbrev is_less : String → String → Bool
is_less a b = elim (compare a b) [ Ordering.lt ↦ true | _ ↦ false ]

unfoldable pub place : String → List String → List String
place k [] = k ∷ []
place k (j ∷ js) = let rest = place k js in if is_less j k then j ∷ rest else k ∷ j ∷ js

-- sort.Slice by ID
unfoldable pub sort_ids : List String → List String
unfolding place
sort_ids [] = []
sort_ids (k ∷ ks) = place k (sort_ids ks)

-- for _, vertex := range order { remaining[vertex.ID] = vertex }
unfoldable pub collect : List String → List String → List String
collect remaining [] = remaining
collect remaining (id ∷ ids) =
    collect (if contains id remaining then remaining else remaining ++ id ∷ []) ids

pub data Layers : Type 0 where
  layers : List (List String) → Layers
  stuck : List (List String) → Layers
  out_of_fuel : Layers

-- `rest`, unless the level is empty
abbrev pub unless_empty : List String → Layers → Layers → Layers
unless_empty [] failed rest = failed
unless_empty (_ ∷ _) failed rest = rest

module _ {ℓ} {T : Type ℓ} (g : Graph T) where
  -- The loop over the levels, which `built` holds so far.
  unfoldable pub build : ℕ → Map ℤ → List String → List (List String) → Layers
  unfolding release sort_ids
  build fuel deg [] built = layers built
  build zero deg (id ∷ ids) built = out_of_fuel
  build (suc fuel) deg (id ∷ ids) built =
      let level = sort_ids (without_incoming deg (id ∷ ids)) in
      let (deg', remaining) = release g deg (id ∷ ids) level in
      let rest = build fuel deg' remaining (built ++ level ∷ []) in
      unless_empty level (stuck built) rest

  unfoldable pub levels_of : ℕ → List String → Layers
  unfolding build collect in_degrees
  levels_of fuel order = build fuel (in_degrees g order) (collect [] order) []

-- The results: `cyclic` has the path of the cycle, or none when only the count of the sorted vertices shows it.
pub data SortResult : Type 0 where
  sorted : List String → SortResult
  cyclic : List String → SortResult
  out_of_fuel : SortResult

pub data ParallelSortResult : Type 0 where
  leveled : List String → List (List String) → ParallelSortResult
  cyclic : List String → ParallelSortResult
  stopped : List String → List (List String) → ParallelSortResult
  out_of_fuel : ParallelSortResult

module _ {ℓ} {T : Type ℓ} (g : Graph T) where
  -- the fuel of every loop
  abbrev pub size : ℕ
  size = length (keys g.vertices)

  unfoldable pub topological_sort : SortResult
  unfolding detect_cycle_with_path kahn
  topological_sort = elim (detect_cycle_with_path g size) [
    | Detected.out_of_fuel ↦ SortResult.out_of_fuel
    | Detected.cycle path ↦ SortResult.cyclic path
    | Detected.clear _ ↦ elim (kahn g size) [
      | none ↦ SortResult.out_of_fuel
      | some none ↦ SortResult.cyclic []
      | some (some order) ↦ sorted order
    ]
  ]

  -- What ParallelTopologicalSort makes of the sorted order.
  unfoldable pub leveled_order : List String → ParallelSortResult
  unfolding levels_of
  leveled_order order = elim (levels_of g size order) [
    | layers levels ↦ leveled order levels
    | stuck levels ↦ stopped order levels
    | Layers.out_of_fuel ↦ ParallelSortResult.out_of_fuel
  ]

  unfoldable pub parallel_topological_sort : ParallelSortResult
  unfolding detect_cycle_with_path topological_sort leveled_order
  parallel_topological_sort = elim (detect_cycle_with_path g size) [
    | Detected.out_of_fuel ↦ ParallelSortResult.out_of_fuel
    | Detected.cycle path ↦ ParallelSortResult.cyclic path
    | Detected.clear _ ↦ elim topological_sort [
      | SortResult.out_of_fuel ↦ ParallelSortResult.out_of_fuel
      | SortResult.cyclic path ↦ ParallelSortResult.cyclic path
      | sorted order ↦ leveled_order order
    ]
  ]
