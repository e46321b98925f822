-- ===== src/Engine/Activity.antt =====
-- Running an activity, and what it leaves in the orchestration's stored state
-- (pmanager/natsorchestration/activity.go). The activity processor is an agent's: a parameter.
use cfm.Prelude.{
  ℕ, String, Bool, not, ◌&&◌, Option, some, List, Map, insert, merge, if◌then◌else◌, from_option,
  str_eq, ℤ, pos, is_positive, magnitude,
}
use cfm.Json.{Value}
use cfm.Errors.{Error, wrapped, deadline_exceeded}
use cfm.Nats.Retry.{default_max_deliver}
use cfm.Orchestration.{errored, Activity, Orchestration, merge_engine_state, set_state}
use cfm.Engine.Truncate.{truncate_error}

-- ActivityResultType: the named codes, and any other.
pub data ResultType : Type 0 where
  wait complete schedule retry_error fatal_error : ResultType
  other : ℤ → ResultType

pub record ActivityResult : Type 0 where
  pub result : ResultType
  pub wait_on_reschedule : ℤ
  pub error : Option Error

-- What a processor did: it panicked, or it returned, leaving the data maps as given, and whether at
-- that time its own deadline had passed and the caller's context was done.
pub data Ran : Type 0 where
  panicked : Ran
  ran :
      (result : ActivityResult) (processing output : Map Value)
      (deadline_exceeded parent_done : Bool)
      → Ran

-- A processor's method, given the orchestration's ID, the activity and the two data maps.
abbrev pub Process : Type 0
Process = String → Activity → Map Value → Map Value → Ran

pub record ActivityProcessor : Type 0 where
  pub process : Process
  pub process_deploy : Process
  pub process_dispose : Process

-- maxActivityRetries
unfoldable pub max_activity_retries : ℤ → ℕ
max_activity_retries n = if is_positive n then magnitude n else default_max_deliver

-- An activity that fails for good because it ran out of time is retried.
unfoldable pub on_deadline : ActivityResult → Bool → Bool → ActivityResult
on_deadline r deadline parent = elim r.result [
  | fatal_error ↦
      if deadline && not parent
      then record {
        result = retry_error;
        wait_on_reschedule = pos 0;
        error =
            some
              (wrapped "activity did not finish in time" (from_option deadline_exceeded r.error));
      }
      else r
  | _ ↦ r
]

abbrev after_run : Ran → Ran
after_run panicked = panicked
after_run (ran r processing output deadline parent) =
    ran (on_deadline r deadline parent) processing output deadline parent

-- runActivity: the method is chosen by the activity's discriminator.
unfoldable pub run_activity : ActivityProcessor → Orchestration → Activity → Ran
unfolding on_deadline
run_activity p o a =
    let method =
      if str_eq a.discriminator "cfm.orchestration.vpa.deploy"
      then p.process_deploy
      else if str_eq a.discriminator "cfm.orchestration.vpa.dispose"
      then p.process_dispose
      else p.process in
    after_run (method o.id a o.processing_data o.output_data)

-- The parts of the update functions that copy an activity's data and the engine's bookkeeping.
unfoldable pub keep_data : Orchestration → Orchestration → Orchestration
keep_data from o = record o {
  processing_data = merge o.processing_data from.processing_data;
  output_data = merge o.output_data from.output_data;
  engine_state = merge_engine_state o.engine_state from.engine_state;
}

unfoldable pub keep_completed : Orchestration → String → Orchestration → Orchestration
unfolding keep_data
keep_completed from k o =
    let kept = keep_data from o in record kept { completed = insert kept.completed k tt }

unfoldable pub keep_errored : Orchestration → List ℕ → ℕ → Orchestration → Orchestration
unfolding keep_data set_state truncate_error
keep_errored from message now o =
    let kept = set_state (keep_data from o) errored now in
    record kept { engine_state = record kept.engine_state { error = truncate_error message } }
