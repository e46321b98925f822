-- ===== src/Dag.antt =====
-- The dependency graph (common/dag/dag.go). A pointer to a vertex is its ID: AddEdge only stores pointers to
-- vertices that are in the graph's map, and no entry of the map is ever replaced or removed.
pub mod WellFormed
pub mod Edges
pub mod Cycles
pub mod Walks
pub mod Searching
pub mod Detection
pub mod Sort
pub mod Degrees
pub mod Kahn
pub mod Release
pub mod Levels
pub mod Correct
pub mod Acyclic
pub mod Reversed
pub mod Topological
use cfm.Prelude.{
  String, Bool, true, false, Option, none, some, List, [], ◌∷◌, ◌++◌, Map, lookup, insert, has,
  if◌then◌else◌, contains, remove,
}

pub record Vertex {ℓ} (T : Type ℓ) : Type ℓ where
  pub id : String
  pub value : T
  pub edges : List String

pub record Graph {ℓ} (T : Type ℓ) : Type ℓ where
  pub vertices : Map (Vertex T)

-- the keys of a map, in the order of a range over it
abbrev pub keys {ℓ} : {V : Type ℓ} → Map V → List String
keys [] = []
keys ((k, _) ∷ m) = k ∷ keys m

module _ {ℓ} {T : Type ℓ} where
  abbrev pub new_graph : Graph T
  new_graph = record { vertices = [] }

  abbrev pub new_vertex : String → T → Vertex T
  new_vertex id value = record { id = id; value = value; edges = [] }

  unfoldable pub add_vertex : Graph T → String → T → Graph T
  add_vertex g id value =
      if has g.vertices id
      then g
      else record { vertices = insert g.vertices id (new_vertex id value) }

  abbrev pub append_edge : Vertex T → String → Vertex T
  append_edge u to = if contains to u.edges then u else record u { edges = u.edges ++ to ∷ [] }

  unfoldable pub add_edge : Graph T → String → String → Graph T
  add_edge g from to = elim (lookup g.vertices from) [
    | none ↦ g
    | some u ↦
        if has g.vertices to
        then record { vertices = insert g.vertices from (append_edge u to) }
        else g
  ]

  abbrev pub get_vertex : Graph T → String → Option (Vertex T)
  get_vertex g id = lookup g.vertices id

  -- the edges behind a pointer to a vertex
  unfoldable pub edges_of : Graph T → String → List String
  edges_of g id = elim (lookup g.vertices id) [ none ↦ [] | some u ↦ u.edges ]
