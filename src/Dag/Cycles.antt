-- ===== src/Dag/Cycles.antt =====
-- The search for a cycle (common/dag/dag.go: detectCycleWithPath, detectCycle).
use cfm.Prelude.{
  ℕ, zero, suc, String, Bool, true, false, Option, none, some, List, [], ◌∷◌, ◌++◌, Map, lookup,
  insert, if◌then◌else◌, from_option, str_eq, reverse, length,
}
use cfm.Dag.{Graph, keys, edges_of}

pub data Mark : Type 0 where
  unvisited visiting visited : Mark

abbrev pub is_unvisited : Mark → Bool
is_unvisited unvisited = true
is_unvisited _ = false

-- visitState and parent
pub record Search : Type 0 where
  pub marks : Map Mark
  pub parents : Map String

abbrev pub mark_of : Search → String → Mark
mark_of s id = from_option unvisited (lookup s.marks id)

abbrev pub parent_of : Map String → String → String
parent_of parents id = from_option "" (lookup parents id)

abbrev pub set_mark : String → Mark → Search → Search
set_mark id m s = record s { marks = insert s.marks id m }

-- The loop back from the current vertex to the start of the cycle.
unfoldable pub trace : ℕ → Map String → String → String → List String → Option (List String)
trace zero parents start current cycle = if str_eq current start then some cycle else none
trace (suc fuel) parents start current cycle =
    let rest = trace fuel parents start (parent_of parents current) (cycle ++ current ∷ []) in
    if str_eq current start then some cycle else rest

-- `clear` is a search that found no cycle.
pub data Detected : Type 0 where
  clear : Search → Detected
  cycle : List String → Detected
  out_of_fuel : Detected

unfoldable pub cycle_path : ℕ → Map String → String → String → Detected
unfolding trace
cycle_path fuel parents vertex neighbor =
    elim (trace fuel parents neighbor vertex (neighbor ∷ [])) [
      | none ↦ out_of_fuel
      | some path ↦ cycle (reverse (path ++ neighbor ∷ []))
    ]

abbrev pub set_parent : String → String → Search → Search
set_parent id parent s = record s { parents = insert s.parents id parent }

abbrev pub and_then : Detected → (Search → Detected) → Detected
and_then (clear s) rest = rest s
and_then (cycle path) rest = cycle path
and_then out_of_fuel rest = out_of_fuel

module _ {ℓ} {T : Type ℓ} (g : Graph T) where
  -- The loop of detectCycle over the neighbors of `id`; `search` is its recursive call.
  unfoldable pub visit : (String → Search → Detected) → String → List String → Search → Detected
  unfolding cycle_path
  visit search id [] s = clear s
  visit search id (n ∷ ns) s = elim (mark_of s n) [
    | visiting ↦ cycle_path (length (keys g.vertices)) s.parents id n
    | unvisited ↦ and_then (search n (set_parent n id s)) (visit search id ns)
    | visited ↦ visit search id ns s
  ]

  unfoldable pub detect_cycle : ℕ → String → Search → Detected
  unfolding visit edges_of
  detect_cycle zero id s = out_of_fuel
  detect_cycle (suc fuel) id s =
      and_then (visit (detect_cycle fuel) id (edges_of g id) (set_mark id visiting s))
        (λ s'. clear (set_mark id visited s'))

  -- The loop of detectCycleWithPath over the vertices.
  unfoldable pub detect_all : ℕ → List String → Search → Detected
  unfolding detect_cycle
  detect_all fuel [] s = clear s
  detect_all fuel (id ∷ ids) s =
      and_then (if is_unvisited (mark_of s id) then detect_cycle fuel id s else clear s)
        (detect_all fuel ids)

-- visitState[id] = unvisited for each vertex
unfoldable pub all_unvisited : List String → Map Mark → Map Mark
all_unvisited [] marks = marks
all_unvisited (id ∷ ids) marks = all_unvisited ids (insert marks id unvisited)

module _ {ℓ} {T : Type ℓ} (g : Graph T) where
  unfoldable pub detect_cycle_with_path : ℕ → Detected
  unfolding detect_all all_unvisited
  detect_cycle_with_path fuel =
      detect_all g fuel (keys g.vertices)
        (record { marks = all_unvisited (keys g.vertices) []; parents = [] })
