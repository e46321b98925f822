-- ===== src/System.antt =====
-- ServiceAssembler (common/system/assembler.go): the order in which assemblies are started.
pub mod Wired
pub mod Started
use cfm.Prelude.{
  ℕ, String, Bool, true, false, Option, none, some, List, [], ◌∷◌, ◌++◌, Map, lookup, insert,
  reverse,
}
use cfm.Errors.{Error, plain, wrapped, Result, ok, err, ◌>>=◌}
use cfm.Dag.{Graph, new_graph, add_vertex, add_edge}
use cfm.Dag.Sort.{SortResult, sorted, topological_sort}

-- A ServiceAssembly, with what decides about the order; its calls are a parameter below.
pub record Assembly : Type 0 where
  pub name : String
  pub provides : List String
  pub requires : List String

-- for _, provided := range assembly.Provides() { mappedAssemblies[provided] = assembly }
unfoldable pub provide : Map Assembly → Assembly → List String → Map Assembly
provide m a [] = m
provide m a (s ∷ rest) = provide (insert m s a) a rest

-- The loop that registers the assemblies: the vertices, and what provides each service.
unfoldable pub register :
    Graph Assembly → Map Assembly → List Assembly → Graph Assembly × Map Assembly
unfolding provide add_vertex
register g m [] = (g, m)
register g m (a ∷ rest) = register (add_vertex g a.name a) (provide m a a.provides) rest

-- The loop over what an assembly requires.
unfoldable pub require :
    Map Assembly → Graph Assembly → String → List String → Result (Graph Assembly)
unfolding add_edge
require m g name [] = ok g
require m g name (r ∷ rest) = elim (lookup m r) [
  | none ↦ err (plain "required assembly not found for assembly")
  | some p ↦ require m (add_edge g name p.name) name rest
]

unfoldable pub require_all : Map Assembly → Graph Assembly → List Assembly → Result (Graph Assembly)
unfolding require
require_all m g [] = ok g
require_all m g (a ∷ rest) = require m g a.name a.requires >>= (λ g'. require_all m g' rest)

-- mapToAssemblies
unfoldable pub to_assemblies : Graph Assembly → List String → List Assembly
to_assemblies g [] = []
to_assemblies g (id ∷ ids) = elim (lookup g.vertices id) [
  | none ↦ to_assemblies g ids
  | some u ↦ u.value ∷ to_assemblies g ids
]

unfoldable pub sorted_order : Graph Assembly → Result (List Assembly)
unfolding topological_sort to_assemblies
sorted_order g = elim (topological_sort g) [
  | sorted order ↦ ok (to_assemblies g (reverse order))
  | SortResult.cyclic path ↦ err (plain "cycle detected in assembly graph")
  | SortResult.out_of_fuel ↦ err (plain "cycle detected in assembly graph")
]

-- The order in which Assemble calls the assemblies.
unfoldable pub init_order : List Assembly → Result (List Assembly)
unfolding register require_all sorted_order
init_order assemblies =
    let (g, m) = register new_graph [] assemblies in require_all m g assemblies >>= sorted_order

pub data Call : Type 0 where
  init prepare start finalize shutdown : Call

abbrev call_error : Call → String
call_error init = "error initializing assembly"
call_error prepare = "error preparing assembly"
call_error start = "error starting assembly"
call_error finalize = "error finalizing assembly"
call_error shutdown = "error shutting down assembly"

module _ {World : Type 0} (invoke : World → Call → Assembly → World × Option Error) where
  -- A loop that makes one call of each assembly, up to the first error.
  unfoldable pub call_all : World → Call → List Assembly → World × Option Error
  call_all w call [] = (w, none)
  call_all w call (a ∷ rest) =
      let (w', e) = invoke w call a in
      elim e [ some e' ↦ (w', some (wrapped (call_error call) e')) | none ↦ call_all w' call rest ]

  abbrev then_call : World × Option Error → (World → World × Option Error) → World × Option Error
  then_call (w, none) next = next w
  then_call (w, some e) next = (w, some e)

  abbrev kept_order : List Assembly → World × Option Error → World × Result (List Assembly)
  kept_order order (w, none) = (w, ok order)
  kept_order order (w, some e) = (w, err e)

  -- Assemble: the assemblies in the order that is kept, or the error.
  unfoldable pub assemble : World → List Assembly → World × Result (List Assembly)
  unfolding init_order call_all
  assemble w assemblies = elim (init_order assemblies) [
    | err e ↦ (w, err e)
    | ok order ↦ kept_order order (
        then_call (then_call (call_all w init order) (λ w'. call_all w' prepare order))
          (λ w'. call_all w' start order))
  ]

  -- Shutdown, of the assemblies in the order that was kept
  unfoldable pub shut_down : World → List Assembly → World × Option Error
  unfolding call_all
  shut_down w order = then_call (call_all w finalize order) (λ w'. call_all w' shutdown order)
