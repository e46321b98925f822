-- ===== src/Manager/Definitions/Created.antt =====
-- When creating an orchestration definition does not panic (pmanager/core/definition_manager.go).
use cfm.Prelude.{
  ◌≡◌, refl, String, true, Option, none, some, List, [], ◌∷◌, ◌∙◌, ap, Map, insert, has, is_some,
  every, arith, lookup-insert, eq_refl, Option-cases, Bool-cases, inl, inr,
}
use cfm.Errors.{Error, Result, ok, err, is_not_found, join_all, join_all-none, Result-cases}
use cfm.Orchestration.{Activity}
use cfm.Orchestration.Instantiate.Graphs.{all_known}
use cfm.Manager.{OrchestrationDefinition, ActivityDefinition}
use cfm.Manager.Definitions.{
  DefinitionStore, find_definitions, missing_first-never, validated, store_validated, create_found,
  create_orchestration_definition,
}
use cfm.Manager.Definitions.Schema.Total.{validate_activity_schema-some}

module _ (s : DefinitionStore) where
  open s use {World}

  -- Without a missing one, every activity has its definition.
  find_definitions-has :
      (w : World) (found result : Map ActivityDefinition) (as' : List Activity)
      → find_definitions s w found as' ≡ ok (result, [])
      → ((k : String) → has found k ≡ true → has result k ≡ true)
        × (every (λ a. has result a.type) as' ≡ true)
  unfolding find_definitions
  find_definitions-has w found result [] h =
      let same : found ≡ result = ground arith in (λ k there. ground (arith, same), refl)
  find_definitions-has w found result (a ∷ rest) h =
      elim (Result-cases (s.find_activity_definition w a.type)) [
        | inl (e, failed) ↦ elim (Bool-cases (is_not_found e)) [
          | inl missing ↦ absurd (
              missing_first-never (find_definitions s w found rest) result
                (rw (find_definitions, failed, missing) at h))
          | inr other ↦ absurd (ground (arith, rw (find_definitions, failed, other) at h))
        ]
        | inr (d, there) ↦
            let (kept, typed) =
              find_definitions-has w (insert found a.type d) result rest
                (rw (find_definitions, there) at h) in
            (
              λ k old. kept k (ground (arith, lookup-insert found a.type k d, old)),
              ground (
                arith,
                typed,
                kept a.type (ground (arith, lookup-insert found a.type a.type d, eq_refl a.type)),
              ),
            )
      ]

  validated-some :
      (d : OrchestrationDefinition) (found : Map ActivityDefinition)
      → every (λ a. has found a.type) d.activities ≡ true
      → all_known d.activities d.activities ≡ true
      → is_some (validated s d found) ≡ true
  validated-some d found typed known =
      ground (arith, validate_activity_schema-some d.activities found typed known)

  store_validated-some :
      (w : World) (d : OrchestrationDefinition) (v : Option (Option Error))
      → is_some v ≡ true
      → is_some (store_validated s w d v) ≡ true
  store_validated-some w d none h = cc
  store_validated-some w d (some (some e)) h = refl
  store_validated-some w d (some none) h = refl

  create_found-some :
      (w : World) (d : OrchestrationDefinition) (f : Result (Map ActivityDefinition × List Error))
      → find_definitions s w [] d.activities ≡ f
      → all_known d.activities d.activities ≡ true
      → is_some (create_found s w d f) ≡ true
  create_found-some w d (err e) f known = refl
  create_found-some w d (ok (found, missing)) f known = elim (Option-cases (join_all missing)) [
    | inr (e, some_missing) ↦ rw (create_found, some_missing) refl
    | inl n ↦
        let (kept, typed) =
          find_definitions-has w [] found d.activities
            (f ∙ ap (λ es. ok (found, es)) (join_all-none missing n)) in
        rw (create_found, n)
          (store_validated-some w d (validated s d found) (validated-some d found typed known))
  ]

  committed-some :
      (w : World) (o : Option (World × Result OrchestrationDefinition))
      → is_some o ≡ true
      → is_some (elim o as (λ x. Option (World × Result OrchestrationDefinition)) [
        | none ↦ none
        | some r ↦ some (s.commit w r)
      ])
        ≡ true
  committed-some w none h = cc
  committed-some w (some r) h = refl

  -- Creating an orchestration definition does not panic, over any store, if every dependency of its activities is
  -- the ID of one of them.
  pub create_orchestration_definition-some :
      (w : World) (d : OrchestrationDefinition)
      → all_known d.activities d.activities ≡ true
      → is_some (create_orchestration_definition s w d) ≡ true
  unfolding create_orchestration_definition
  create_orchestration_definition-some w d known =
      committed-some w (create_found s w d (find_definitions s w [] d.activities))
        (create_found-some w d (find_definitions s w [] d.activities) refl known)
