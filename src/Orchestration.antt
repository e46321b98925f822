-- ===== src/Orchestration.antt =====
-- The orchestration's data and the step logic on it (pmanager/api/types.go).
pub mod Steps
pub mod Completions
pub mod Instantiate
use cfm.Prelude.{
  ℕ, zero, suc, String, Bool, true, false, ◌||◌, ◌&&◌, Option, none, some, List, [], ◌∷◌, Map,
  empty, insert, has, merge, if◌then◌else◌, str_eq, some_of, contains,
}
use cfm.Json.{Value}
use cfm.Errors.{Error, plain, Result, ok, err}

pub data State : Type 0 where
  initialized running completed errored : State

abbrev pub is_initialized : State → Bool
is_initialized initialized = true
is_initialized _ = false

abbrev pub is_completed : State → Bool
is_completed completed = true
is_completed _ = false

abbrev pub is_errored : State → Bool
is_errored errored = true
is_errored _ = false

pub record Activity : Type 0 where
  pub id : String
  pub type : String
  pub discriminator : String
  pub depends_on : List String

pub record OrchestrationStep : Type 0 where
  pub activities : List Activity

-- The engine's bookkeeping. `error` is the bytes of the message.
pub record EngineState : Type 0 where
  pub trace_context : String
  pub attempts : Map ℕ
  pub retries : Map ℕ
  pub error : List ℕ

-- Timestamps are numbers that the clock gave.
pub record Orchestration : Type 0 where
  pub id : String
  pub correlation_id : String
  pub definition_id : String
  pub state : State
  pub state_timestamp : ℕ
  pub created_timestamp : ℕ
  pub orchestration_type : String
  pub steps : List OrchestrationStep
  pub processing_data : Map Value
  pub output_data : Map Value
  pub completed : Map (Unit {0})
  pub engine_state : EngineState
  pub origin_trace_context : Option (Map String)
  pub compensated_orchestration_id : String

pub record ActivityMessage : Type 0 where
  pub orchestration_id : String
  pub activity : Activity

abbrev pub is_empty_text : List ℕ → Bool
is_empty_text [] = true
is_empty_text (_ ∷ _) = false

-- EngineState.Merge: `from` copied onto `s`.
unfoldable pub merge_engine_state : EngineState → EngineState → EngineState
merge_engine_state s from = record {
  trace_context = from.trace_context;
  attempts = merge s.attempts from.attempts;
  retries = merge s.retries from.retries;
  error = if is_empty_text from.error then s.error else from.error;
}

-- SetState, at the time that the clock shows
unfoldable pub set_state : Orchestration → State → ℕ → Orchestration
set_state o state now = record o { state = state; state_timestamp = now }

abbrev pub has_activity : String → List Activity → Bool
has_activity k = some_of (λ a. str_eq a.id k)

-- GetStepForActivity, over o.Steps
unfoldable pub find_step : List OrchestrationStep → String → Option OrchestrationStep
find_step [] k = none
find_step (step ∷ steps) k = if has_activity k step.activities then some step else find_step steps k

unfoldable pub get_step_for_activity : Orchestration → String → Result OrchestrationStep
unfolding find_step
get_step_for_activity o k = elim (find_step o.steps k) [
  | none ↦ err (plain "step not found for activity")
  | some step ↦ ok step
]

-- The loop of CanProceedToNextStep over a step's activities.
unfoldable pub others_completed : Map (Unit {0}) → String → List Activity → Bool
others_completed done k [] = true
others_completed done k (a ∷ as') = (str_eq a.id k || has done a.id) && others_completed done k as'

unfoldable pub can_proceed_to_next_step : Orchestration → String → Result Bool
unfolding get_step_for_activity others_completed
can_proceed_to_next_step o k = elim (get_step_for_activity o k) [
  | err e ↦ err e
  | ok step ↦ ok (others_completed o.completed k step.activities)
]

abbrev pub first_activities : List OrchestrationStep → List Activity
first_activities [] = []
first_activities (step ∷ _) = step.activities

-- GetNextStepActivities, over o.Steps
unfoldable pub next_after : List OrchestrationStep → String → List Activity
next_after [] k = []
next_after (step ∷ steps) k =
    if has_activity k step.activities then first_activities steps else next_after steps k

unfoldable pub get_next_step_activities : Orchestration → String → List Activity
unfolding next_after
get_next_step_activities o k = next_after o.steps k
