-- ===== src/Manager/Definitions/Memory/Reachable.antt =====
-- Every sequence of operations of definitionManager on MemoryDefinitionStore (pmanager/core/definition_manager.go,
-- pmanager/memorystore/store.go).
use cfm.Prelude.{◌≡◌, String, Bool, Option, some, lookup, arith}
use cfm.Errors.{Error, Result}
use cfm.Manager.{OrchestrationDefinition, ActivityDefinition}
use cfm.Manager.Definitions.{
  create_orchestration_definition, delete_orchestration_definition, create_activity_definition,
  delete_activity_definition,
}
use cfm.Manager.Definitions.Memory.{Memory, new_definition_store}
use cfm.Manager.Definitions.Memory.Defined.{Closed}
use cfm.Manager.Definitions.Memory.Closed.{
  store, create_orchestration-Closed, delete_orchestration-Closed, store_activity-Closed,
  delete_activity-Closed,
}

module _ (is_of : OrchestrationDefinition → String → Bool)
    (entry : String → Option Error × Bool) where
  new-Closed : Closed new_definition_store
  unfolding lookup
  new-Closed k d found = absurd (ground arith)

  -- The memories that the manager's operations lead to, from the empty one.
  pub data Reachable : Memory → Type 0 where
    start : Reachable new_definition_store
    orchestration_created :
        {m : Memory} {r : Memory × Result OrchestrationDefinition} (d : OrchestrationDefinition)
        → Reachable m
        → create_orchestration_definition (store is_of entry) m d ≡ some r
        → Reachable r.0
    orchestration_deleted :
        {m : Memory} (template : String)
        → Reachable m
        → Reachable (delete_orchestration_definition (store is_of entry) m template).0
    activity_created :
        {m : Memory} (d : ActivityDefinition)
        → Reachable m
        → Reachable (create_activity_definition (store is_of entry) m d).0
    activity_deleted :
        {m : Memory} (type : String)
        → Reachable m
        → Reachable (delete_activity_definition (store is_of entry) m type).0

  -- Whatever definitions are created and deleted, in whatever order and with whatever errors: each activity of
  -- a stored orchestration definition has a definition of its type.
  pub reachable-Closed : (m : Memory) → Reachable m → Closed m
  reachable-Closed _ start = new-Closed
  reachable-Closed _ (orchestration_created {m} d at created) =
      create_orchestration-Closed is_of entry m d (reachable-Closed m at) created
  reachable-Closed _ (orchestration_deleted {m} template at) =
      delete_orchestration-Closed is_of entry m template (reachable-Closed m at)
  reachable-Closed _ (activity_created {m} d at) =
      store_activity-Closed is_of entry m d (reachable-Closed m at)
  reachable-Closed _ (activity_deleted {m} type at) =
      delete_activity-Closed is_of entry m type (reachable-Closed m at)
