-- ===== src/Manager/Definitions.antt =====
-- definitionManager (pmanager/core/definition_manager.go): creating and deleting the definitions of orchestrations
-- and of activities. A schema is a JSON object. `none` is a panic.
pub mod Schema
pub mod Memory
pub mod Created
use cfm.Prelude.{
  ◌≡◌, arith, String, Bool, true, false, not, ◌&&◌, Option, none, some, List, [], ◌∷◌, Map, insert,
  is_some, if◌then◌else◌, str_eq,
}
use cfm.Json.{Fields}
use cfm.Errors.{
  Error, bad_request, err_not_found, is_not_found, join_all, Result, ok, err,
  new_recoverable_wrapped_error,
}
use cfm.Orchestration.{Activity}
use cfm.Manager.{OrchestrationDefinition, ActivityDefinition}
use cfm.Manager.Definitions.Schema.{validate_activity_schema}

-- api.DefinitionStore with the calls that change definitions or decide about it, the transactions, and the store of
-- orchestration entries.
pub record DefinitionStore : Type 1 where
  pub World : Type 0
  pub find_activity_definition : World → String → Result ActivityDefinition
  pub exists_activity_definition : World → String → Result Bool
  pub activity_definition_references : World → String → Result (List String)
  -- FindOrchestrationDefinitionsByPredicate of templateRef
  pub find_by_template : World → String → Result (List OrchestrationDefinition)
  pub store_orchestration_definition :
      World → OrchestrationDefinition → World × Result OrchestrationDefinition
  pub store_activity_definition : World → ActivityDefinition → World × Result ActivityDefinition
  pub delete_orchestration_definition : World → String → World × Result Bool
  pub delete_activity_definition : World → String → World × Result Bool
  -- FindFirstByPredicate of DefinitionID: the error, and whether there is an entry
  pub find_first_entry : World → String → Option Error × Bool
  pub commit : {A : Type 0} → World → World × Result A → World × Result A

abbrev pub deploy_type : String
deploy_type = "cfm.orchestration.vpa.deploy"

abbrev missing_first :
    Result (Map ActivityDefinition × List Error) → Result (Map ActivityDefinition × List Error)
missing_first (err e) = err e
missing_first (ok (found, missing)) = ok (found, bad_request "activity type not found" ∷ missing)

pub missing_first-never :
    (r : Result (Map ActivityDefinition × List Error)) (result : Map ActivityDefinition)
    → missing_first r ≡ ok (result, [])
    → ⊥
missing_first-never (err e) result h = ground arith
missing_first-never (ok (found, missing)) result h = ground arith

module _ (s : DefinitionStore) where
  open s use {World}

  -- The loop that verifies that all activities exist: the definitions, and an error for each one missing.
  unfoldable pub find_definitions :
      World → Map ActivityDefinition → List Activity → Result (Map ActivityDefinition × List Error)
  unfolding is_not_found
  find_definitions w found [] = ok (found, [])
  find_definitions w found (a ∷ rest) = elim (s.find_activity_definition w a.type) [
    | ok d ↦ find_definitions w (insert found a.type d) rest
    | err e ↦
        let others = find_definitions w found rest in
        if is_not_found e then missing_first others else err e
  ]

  abbrev pub validated : OrchestrationDefinition → Map ActivityDefinition → Option (Option Error)
  validated d found =
      if str_eq d.type deploy_type then validate_activity_schema d.activities found else some none

  abbrev pub store_validated :
      World
      → OrchestrationDefinition
      → Option (Option Error)
      → Option (World × Result OrchestrationDefinition)
  store_validated w d none = none
  store_validated w d (some (some e)) = some (w, err e)
  store_validated w d (some none) = some (s.store_orchestration_definition w d)

  abbrev pub create_found :
      World
      → OrchestrationDefinition
      → Result (Map ActivityDefinition × List Error)
      → Option (World × Result OrchestrationDefinition)
  create_found w d (err e) = some (w, err e)
  create_found w d (ok (found, missing)) = elim (join_all missing) [
    | some e ↦ some (w, err e)
    | none ↦ store_validated w d (validated d found)
  ]

  -- CreateOrchestrationDefinition
  unfoldable pub create_orchestration_definition :
      World → OrchestrationDefinition → Option (World × Result OrchestrationDefinition)
  unfolding find_definitions join_all validate_activity_schema
  create_orchestration_definition w d =
      elim (create_found w d (find_definitions w [] d.activities)) [
        | none ↦ none
        | some r ↦ some (s.commit w r)
      ]

  abbrev pub deletion_error : Result Bool → String → String → Option Error
  deletion_error (err e) failed refused = some (new_recoverable_wrapped_error (some e) failed)
  deletion_error (ok false) failed refused = some (bad_request refused)
  deletion_error (ok true) failed refused = none

  -- What keeps an orchestration definition from deletion: an entry that was started from it.
  abbrev pub entry_error : Option Error × Bool → Option Error
  entry_error (some e, entry) =
      if not (is_not_found e)
      then some (new_recoverable_wrapped_error (some e) "failed to delete orchestration definition")
      else if entry
      then some (bad_request "Cannot delete orchestration definition")
      else none
  entry_error (none, entry) =
      if entry then some (bad_request "Cannot delete orchestration definition") else none

  -- The loop of DeleteOrchestrationDefinition. GetID is the type.
  unfoldable pub delete_all : World → List OrchestrationDefinition → World × Option Error
  unfolding is_not_found new_recoverable_wrapped_error
  delete_all w [] = (w, none)
  delete_all w (d ∷ ds) = elim (entry_error (s.find_first_entry w d.type)) [
    | some e ↦ (w, some e)
    | none ↦
        let (w', deleted) = s.delete_orchestration_definition w d.type in
        elim (deletion_error deleted "failed to delete orchestration definition"
          "unable to delete orchestration definition") [
            | some e ↦ (w', some e)
            | none ↦ delete_all w' ds
          ]
  ]

  abbrev pub as_result : Option Error → Result (Unit {0})
  as_result none = ok tt
  as_result (some e) = err e

  unfoldable pub delete_orchestration_in : World → String → World × Result (Unit {0})
  unfolding delete_all new_recoverable_wrapped_error
  delete_orchestration_in w template = elim (s.find_by_template w template) [
    | err e ↦
        (w, err (new_recoverable_wrapped_error (some e) "failed to check orchestration definition"))
    | ok [] ↦ (w, err err_not_found)
    | ok (d ∷ ds) ↦ let (w', e) = delete_all w (d ∷ ds) in (w', as_result e)
  ]

  -- DeleteOrchestrationDefinition
  abbrev pub delete_orchestration_definition : World → String → World × Result (Unit {0})
  delete_orchestration_definition w template = s.commit w (delete_orchestration_in w template)

  -- CreateActivityDefinition
  abbrev pub create_activity_definition :
      World → ActivityDefinition → World × Result ActivityDefinition
  create_activity_definition w d = s.commit w (s.store_activity_definition w d)

  unfoldable pub delete_activity_in : World → String → World × Result (Unit {0})
  unfolding new_recoverable_wrapped_error
  delete_activity_in w type = elim (s.exists_activity_definition w type) [
    | err e ↦
        (w, err (new_recoverable_wrapped_error (some e) "failed to check activity definition"))
    | ok false ↦ (w, err err_not_found)
    | ok true ↦ elim (s.activity_definition_references w type) [
      | err e ↦ (
        w,
        err (
            new_recoverable_wrapped_error (some e)
              "failed to check activity definition references"),
      )
      | ok (r ∷ rs) ↦ (w, err (bad_request "activity type is referenced"))
      | ok [] ↦
          let (w', deleted) = s.delete_activity_definition w type in
          (
            w',
            as_result (
                deletion_error deleted "failed to check activity definition references"
                  "unable to delete activity definition type"),
          )
    ]
  ]

  -- DeleteActivityDefinition
  abbrev pub delete_activity_definition : World → String → World × Result (Unit {0})
  delete_activity_definition w type = s.commit w (delete_activity_in w type)
