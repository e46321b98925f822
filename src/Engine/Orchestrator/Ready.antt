-- ===== src/Engine/Orchestrator/Ready.antt =====
-- The activities that are published, in an orchestration that InstantiateOrchestration made
-- (pmanager/api/types.go, pmanager/natsorchestration/orchestration.go).
use mathlib.Core.List.{append_assoc}
use cfm.Prelude.{
  ℕ, ◌<◌, ◌≡◌, refl, String, true, some, List, [], ◌∷◌, ◌++◌, Map, arith, occ, All, if◌then◌else◌,
  inl, inr, Bool-cases, length, subst, sym,
}
use cfm.Json.{Value}
use cfm.Errors.{ok}
use cfm.Orchestration.{
  Activity, OrchestrationStep, Orchestration, has_activity, next_after, get_next_step_activities,
  first_activities,
}
use cfm.Orchestration.Instantiate.{instantiate_orchestration}
use cfm.Orchestration.Instantiate.Graphs.{depends, find_activity}
use cfm.Orchestration.Instantiate.Staged.{Staged, StepsReady, ids_of}
use cfm.Orchestration.Instantiate.Outcome.{instantiate_orchestration-Staged}
use cfm.Engine.Orchestrator.{initial_of, get_initial_activities}

-- the IDs in the steps up to the one that holds `k`
abbrev pub ids_through : List OrchestrationStep → String → List String
ids_through [] k = []
ids_through (s ∷ ss) k =
    if has_activity k s.activities
    then ids_of s.activities
    else ids_of s.activities ++ ids_through ss k

-- What each of these activities depends on is among these IDs.
abbrev pub DependOn : List Activity → List String → List Activity → Type 0
DependOn given known as' =
    All (λ a. (d : String) → depends given a.id d ≡ true → 0 < occ d known) as'

initial_of-nonempty :
    (as' : List Activity) (ss : List OrchestrationStep)
    → 0 < length as'
    → initial_of (record { activities = as' } ∷ ss) ≡ as'
unfolding initial_of
initial_of-nonempty [] ss h = absurd (omega arith)
initial_of-nonempty (a ∷ as') ss h = refl

module _ (given : List Activity) where
  All-DependOn :
      (known known' : List String) (as' : List Activity)
      → All
          (λ a.
            (find_activity given a.id ≡ some a)
            × ((d : String) → depends given a.id d ≡ true → 0 < occ d known))
          as'
      → ((d : String) → 0 < occ d known → 0 < occ d known')
      → DependOn given known' as'
  All-DependOn known known' [] h more = tt
  All-DependOn known known' (a ∷ as') h more =
      ((λ d dep. more d (h.0.1 d dep)), All-DependOn known known' as' h.1 more)

  initial-DependOn :
      (ss : List OrchestrationStep) → StepsReady given [] ss → DependOn given [] (initial_of ss)
  unfolding initial_of
  initial-DependOn [] h = tt
  initial-DependOn (s ∷ ss) h =
      subst (DependOn given []) (sym (initial_of-nonempty s.activities ss h.0))
        (All-DependOn [] [] s.activities h.1 (λ d old. old))

  first-DependOn :
      (before : List String) (ss : List OrchestrationStep)
      → StepsReady given before ss
      → DependOn given before (first_activities ss)
  first-DependOn before [] h = tt
  first-DependOn before (s ∷ ss) h = All-DependOn before before s.activities h.1 (λ d old. old)

  next-DependOn :
      (before : List String) (ss : List OrchestrationStep) (k : String)
      → StepsReady given before ss
      → DependOn given (before ++ ids_through ss k) (next_after ss k)
  unfolding next_after
  next-DependOn before [] k h = tt
  next-DependOn before (s ∷ ss) k h = elim (Bool-cases (has_activity k s.activities)) [
    | inl here ↦ rw here (first-DependOn (before ++ ids_of s.activities) ss h.2)
    | inr later ↦
        rw (later, ← append_assoc before (ids_of s.activities) (ids_through ss k))
          (next-DependOn (before ++ ids_of s.activities) ss k h.2)
  ]

-- The activities that are published first depend on nothing, and those that follow the step of `k` depend only on
-- activities of the steps up to that one: as long as the orchestration has the steps that it was instantiated with.
pub published-DependOn :
    (now : ℕ) (id correlation_id type definition_id : String) (given : List Activity)
    (payload : Map Value) (o : Orchestration)
    → instantiate_orchestration now id correlation_id type definition_id given payload ≡ ok o
    → (o' : Orchestration) → o'.steps ≡ o.steps
    → DependOn given [] (get_initial_activities o')
      × ((k : String) → DependOn given (ids_through o.steps k) (get_next_step_activities o' k))
unfolding get_initial_activities get_next_step_activities
published-DependOn now id correlation_id type definition_id given payload o made o' same =
    let staged : Staged given o.steps =
      (instantiate_orchestration-Staged now id correlation_id type definition_id given payload o
        made).0 in
    (
      rw (get_initial_activities, same) (initial-DependOn given o.steps staged.ready),
      λ k. rw (get_next_step_activities, same) (next-DependOn given [] o.steps k staged.ready),
    )
