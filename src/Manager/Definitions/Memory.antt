-- ===== src/Manager/Definitions/Memory.antt =====
-- MemoryDefinitionStore (pmanager/memorystore/store.go), and NoOpTransactionContext (common/store/store.go).
pub mod Defined
pub mod Closed
pub mod Reachable
use cfm.Prelude.{
  String, Bool, true, false, Option, none, some, List, [], ◌∷◌, Map, empty, lookup, insert, delete,
  has, some_of, keep, if◌then◌else◌, str_eq,
}
use cfm.Errors.{Error, Result, ok, err, err_not_found, err_conflict}
use cfm.Orchestration.{Activity}
use cfm.Manager.{OrchestrationDefinition, ActivityDefinition}
use cfm.Manager.Definitions.{DefinitionStore}

pub record Memory : Type 0 where
  pub orchestrations : Map OrchestrationDefinition
  pub activities : Map ActivityDefinition

-- NewDefinitionStore, and what Clear leaves
abbrev pub new_definition_store : Memory
new_definition_store = record { orchestrations = []; activities = [] }

abbrev found_or : {A : Type 0} → Option A → Result A
found_or none = err err_not_found
found_or (some a) = ok a

-- FindOrchestrationDefinition and FindActivityDefinition
abbrev pub find_orchestration_definition : Memory → String → Result OrchestrationDefinition
find_orchestration_definition m type = found_or (lookup m.orchestrations type)

abbrev pub find_activity_definition : Memory → String → Result ActivityDefinition
find_activity_definition m type = found_or (lookup m.activities type)

-- StoreOrchestrationDefinition and StoreActivityDefinition
abbrev pub store_orchestration_definition :
    Memory → OrchestrationDefinition → Memory × Result OrchestrationDefinition
store_orchestration_definition m d =
    if has m.orchestrations d.type
    then (m, err err_conflict)
    else (record m { orchestrations = insert m.orchestrations d.type d }, ok d)

abbrev pub store_activity_definition :
    Memory → ActivityDefinition → Memory × Result ActivityDefinition
store_activity_definition m d =
    if has m.activities d.type
    then (m, err err_conflict)
    else (record m { activities = insert m.activities d.type d }, ok d)

-- DeleteOrchestrationDefinition and DeleteActivityDefinition
abbrev pub delete_orchestration : Memory → String → Memory × Result Bool
delete_orchestration m type =
    (record m { orchestrations = delete m.orchestrations type }, ok (has m.orchestrations type))

abbrev pub delete_activity : Memory → String → Memory × Result Bool
delete_activity m type =
    (record m { activities = delete m.activities type }, ok (has m.activities type))

-- ActivityDefinitionReferences
unfoldable pub references : Map OrchestrationDefinition → String → List String
references [] type = []
references ((k, d) ∷ ds) type =
    let rest = references ds type in
    if some_of (λ a. str_eq a.type type) d.activities then d.type ∷ rest else rest

-- listDefinitions, and findDefinitionsByPredicate with the predicate as a test
abbrev pub list_definitions : {A : Type 0} → Map A → List A
list_definitions [] = []
list_definitions ((k, d) ∷ ds) = d ∷ list_definitions ds

abbrev exists_activity_definition : Memory → String → Bool
exists_activity_definition m type = has m.activities type

-- findDefinitionsByPredicate, on the orchestration definitions
abbrev find_definitions_by_predicate :
    Memory → (OrchestrationDefinition → Bool) → List OrchestrationDefinition
find_definitions_by_predicate m matches = keep matches (list_definitions m.orchestrations)

-- `is_of` is the predicate on templateRef, and `entry` the store of orchestration entries.
abbrev pub memory_definition_store :
    (OrchestrationDefinition → String → Bool) → (String → Option Error × Bool) → DefinitionStore
memory_definition_store is_of entry = record {
  World = Memory;
  find_activity_definition = find_activity_definition;
  exists_activity_definition = λ m type. ok (exists_activity_definition m type);
  activity_definition_references = λ m type. ok (references m.orchestrations type);
  find_by_template = λ m template. ok (find_definitions_by_predicate m (λ d. is_of d template));
  store_orchestration_definition = store_orchestration_definition;
  store_activity_definition = store_activity_definition;
  delete_orchestration_definition = delete_orchestration;
  delete_activity_definition = delete_activity;
  find_first_entry = λ m id. entry id;
  commit = λ w r. r;
}
