-- ===== src/Manager/Definitions/Memory/Closed.antt =====
-- Each operation of definitionManager keeps the definitions of MemoryDefinitionStore closed
-- (pmanager/core/definition_manager.go, pmanager/memorystore/store.go).
use cfm.Prelude.{
  ◌≡◌, refl, ap, ◌∙◌, subst, String, Bool, true, false, Option, none, some, List, [], ◌∷◌, Map,
  lookup, insert, delete, has, keep, arith, lookup-insert, lookup-delete, Option-cases, inl, inr,
  Bool-cases,
}
use cfm.Errors.{Error, Result, ok, err, err_not_found, is_not_found, join_all, join_all-none}
use cfm.Orchestration.{Activity}
use cfm.Manager.{OrchestrationDefinition, ActivityDefinition}
use cfm.Manager.Definitions.{
  DefinitionStore, find_definitions, create_orchestration_definition, create_found, store_validated,
  validated, delete_all, delete_orchestration_definition, delete_orchestration_in,
  delete_activity_definition, delete_activity_in, as_result, entry_error, deletion_error,
  missing_first-never,
}
use cfm.Manager.Definitions.Memory.{
  Memory, store_orchestration_definition, store_activity_definition, list_definitions, references,
  memory_definition_store,
}
use cfm.Manager.Definitions.Memory.Defined.{
  all_defined, Closed, all_defined-insert, all_defined-delete, references-none,
}

module _ (is_of : OrchestrationDefinition → String → Bool)
    (entry : String → Option Error × Bool) where
  abbrev pub store : DefinitionStore
  store = memory_definition_store is_of entry

  -- Definitions that were found without one missing
  find_definitions-all_defined :
      (m : Memory) (found result : Map ActivityDefinition) (as' : List Activity)
      → find_definitions store m found as' ≡ ok (result, [])
      → all_defined m.activities as' ≡ true
  unfolding find_definitions is_not_found
  find_definitions-all_defined m found result [] h = refl
  find_definitions-all_defined m found result (a ∷ rest) h =
      elim (Option-cases (lookup m.activities a.type)) [
        | inl missing ↦ absurd (
            missing_first-never (find_definitions store m found rest) result
              (rw (find_definitions, missing) at h))
        | inr (d, defined) ↦
            let others =
              find_definitions-all_defined m (insert found a.type d) result rest
                (rw (find_definitions, defined) at h) in
            ground (arith, defined, others)
      ]

  store_orchestration-Closed :
      (m : Memory) (d : OrchestrationDefinition)
      → Closed m
      → all_defined m.activities d.activities ≡ true
      → Closed (store_orchestration_definition m d).0
  store_orchestration-Closed m d c defined = elim (Bool-cases (has m.orchestrations d.type)) [
    | inl taken ↦ rw (taken) c
    | inr free ↦
        rw (free) (λ k x found. ground (arith, lookup-insert m.orchestrations d.type k d, c k x))
  ]

  store_validated-Closed :
      (m : Memory) (d : OrchestrationDefinition) (v : Option (Option Error))
      (r : Memory × Result OrchestrationDefinition)
      → Closed m
      → all_defined m.activities d.activities ≡ true
      → store_validated store m d v ≡ some r
      → Closed r.0
  store_validated-Closed m d none r c defined h = absurd (ground arith)
  store_validated-Closed m d (some (some e)) r c defined h =
      let same : (m, err e) ≡ r = ground arith in subst (λ o. Closed o.0) same c
  store_validated-Closed m d (some none) r c defined h =
      let same : store_orchestration_definition m d ≡ r = ground arith in
      subst (λ o. Closed o.0) same (store_orchestration-Closed m d c defined)

  create_found-Closed :
      (m : Memory) (d : OrchestrationDefinition) (f : Result (Map ActivityDefinition × List Error))
      (r : Memory × Result OrchestrationDefinition)
      → Closed m
      → find_definitions store m [] d.activities ≡ f
      → create_found store m d f ≡ some r
      → Closed r.0
  create_found-Closed m d (err e) r c f h =
      let same : (m, err e) ≡ r = ground arith in subst (λ o. Closed o.0) same c
  create_found-Closed m d (ok (found, missing)) r c f h = elim (Option-cases (join_all missing)) [
    | inl n ↦
        store_validated-Closed m d (validated store d found) r c
          (find_definitions-all_defined m [] found d.activities
            (f ∙ ap (λ es. ok (found, es)) (join_all-none missing n)))
          (rw (n, create_found) at h)
    | inr (e, some_missing) ↦
        let same : (m, err e) ≡ r = ground (arith, rw (some_missing, create_found) at h) in
        subst (λ o. Closed o.0) same c
  ]

  created-Closed :
      (m : Memory) (d : OrchestrationDefinition)
      (o : Option (Memory × Result OrchestrationDefinition))
      (r : Memory × Result OrchestrationDefinition)
      → ((x : Memory × Result OrchestrationDefinition) → o ≡ some x → Closed x.0)
      → elim o as (λ x. Option (Memory × Result OrchestrationDefinition)) [
        | none ↦ none
        | some x ↦ some x
      ]
        ≡ some r
      → Closed r.0
  created-Closed m d none r c h = absurd (ground arith)
  created-Closed m d (some x) r c h = c r h

  pub create_orchestration-Closed :
      (m : Memory) (d : OrchestrationDefinition) {r : Memory × Result OrchestrationDefinition}
      → Closed m
      → create_orchestration_definition store m d ≡ some r
      → Closed r.0
  unfolding create_orchestration_definition
  create_orchestration-Closed m d c h =
      created-Closed m d (create_found store m d (find_definitions store m [] d.activities)) _
        (λ x. create_found-Closed m d (find_definitions store m [] d.activities) x c refl) h

  delete-Closed :
      (m : Memory) (type : String)
      → Closed m
      → Closed (record m { orchestrations = delete m.orchestrations type })
  delete-Closed m type c k x found = ground (arith, lookup-delete m.orchestrations type k, c k x)

  step-Closed :
      (e : Option Error) (m : Memory) (rest : Memory × Option Error)
      → Closed m
      → Closed rest.0
      → Closed (elim e as (λ x. Memory × Option Error) [ none ↦ rest | some x ↦ (m, some x) ]).0
  step-Closed none m rest c go = go
  step-Closed (some e) m rest c go = c

  delete_all-Closed :
      (m : Memory) (ds : List OrchestrationDefinition) → Closed m → Closed (delete_all store m ds).0
  unfolding delete_all
  delete_all-Closed m [] c = c
  delete_all-Closed m (d ∷ ds) c =
      let m' : Memory = record m { orchestrations = delete m.orchestrations d.type } in
      let gone = delete-Closed m d.type c in
      step-Closed (entry_error store (entry d.type)) m _ c (
        step-Closed (deletion_error store (ok (has m.orchestrations d.type)) _ _) m' _ gone
          (delete_all-Closed m' ds gone))

  pub store_activity-Closed :
      (m : Memory) (d : ActivityDefinition) → Closed m → Closed (store_activity_definition m d).0
  store_activity-Closed m d c = elim (Bool-cases (has m.activities d.type)) [
    | inl taken ↦ rw (taken) c
    | inr free ↦
        rw (free) (λ k x found. all_defined-insert m.activities d.type d x.activities (c k x found))
  ]

  undefine-Closed :
      (m : Memory) (type : String)
      → Closed m
      → references m.orchestrations type ≡ []
      → Closed (record m { activities = delete m.activities type })
  undefine-Closed m type c n k x found =
      all_defined-delete m.activities type x.activities (c k x found)
        (references-none m.orchestrations type k x n found)

  -- The branches of a deletion, whatever its errors are.
  branches-Closed :
      {A : Type 0} (defined : Bool) (referring : List String) (m gone : Memory) (x : A)
      (y : String → List String → A) (z : A)
      → Closed m
      → (referring ≡ [] → Closed gone)
      → Closed
          (elim defined as (λ b. Memory × A) [
            | false ↦ (m, x)
            | true ↦ elim referring as (λ rs. Memory × A) [ [] ↦ (gone, z) | r ∷ rs ↦ (m, y r rs) ]
          ]).0
  branches-Closed false referring m gone x y z c go = c
  branches-Closed true [] m gone x y z c go = go refl
  branches-Closed true (r ∷ rs) m gone x y z c go = c

  pub delete_activity-Closed :
      (m : Memory) (type : String) → Closed m → Closed (delete_activity_definition store m type).0
  unfolding delete_activity_in
  delete_activity-Closed m type c =
      branches-Closed (has m.activities type) (references m.orchestrations type) m _ _ _ _ c
        (undefine-Closed m type c)

  matched-Closed :
      (m : Memory) (ds : List OrchestrationDefinition)
      → Closed m
      → Closed
          (elim ds as (λ x. Memory × Result (Unit {0})) [
            | [] ↦ (m, err err_not_found)
            | d ∷ rest ↦ (
              (delete_all store m (d ∷ rest)).0,
              as_result store (delete_all store m (d ∷ rest)).1,
            )
          ]).0
  matched-Closed m [] c = c
  matched-Closed m (d ∷ rest) c = delete_all-Closed m (d ∷ rest) c

  pub delete_orchestration-Closed :
      (m : Memory) (template : String)
      → Closed m
      → Closed (delete_orchestration_definition store m template).0
  unfolding delete_orchestration_in
  delete_orchestration-Closed m template c =
      matched-Closed m (keep (λ d. is_of d template) (list_definitions m.orchestrations)) c
