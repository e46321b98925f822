-- ===== src/Examples/Engine.antt =====
-- Samples for the orchestration engine: a store with one key, and an orchestration of two steps.
use cfm.Prelude.{
  ℕ, suc, ◌-◌, ◌≤◌, ◌<◌, ◌≡◌, refl, ◌⊎◌, ◌↔◌, String, false, Option, none, some, List, [], ◌∷◌,
  ◌++◌, pos, nat_eq, if◌then◌else◌, length, take, insert, lookup, merge,
}
use cfm.Errors.{Error, api_error, key_not_found, Result, ok, err}
use cfm.Nats.Retry.{delivery_count, Msg, activity_max_deliver, is_final_delivery}
use cfm.Orchestration.{
  initialized, running, Activity, OrchestrationStep, Orchestration, ActivityMessage, set_state,
  find_step, merge_engine_state,
}
use cfm.Orchestration.Completions.{OnlyLast, completion_answers, completion_answers-OnlyLast}
use cfm.Engine.Client.{
  MsgClient, update_orchestration, read_orchestration, max_update_conflicts, is_revision_conflict,
}
use cfm.Engine.Client.Update.{Race, update_orchestration_iff}
use cfm.Engine.Truncate.{truncate_error, max_persisted_error_bytes, marker}
use cfm.Engine.Truncate.Bounds.{IsCut, truncate_error_lem}
use cfm.Engine.Activity.{
  ActivityResult, ActivityProcessor, ran, panicked, complete, retry_error, keep_completed,
  keep_data, keep_errored,
}
use cfm.Engine.Executor.{on_read, process_message}
use cfm.Engine.Executor.Settlement.{SettledOnce, process_message-SettledOnce}
use cfm.Engine.Handlers.{process_on_activity_completion}
use cfm.Engine.Executor.Proceeding.{Proceeds, process_on_activity_completion-Proceeds}
use cfm.Engine.Executor.Outcomes.{
  Completes, Fails, Written, completion_recorded, failure_recorded, completed_not_rerun,
}

abbrev activity : String → Activity
activity k = record { id = k; type = "cfm.deploy"; discriminator = ""; depends_on = [] }

abbrev first_step : OrchestrationStep
first_step = record { activities = activity "a" ∷ activity "b" ∷ [] }

abbrev last_step : OrchestrationStep
last_step = record { activities = activity "c" ∷ [] }

abbrev order : Orchestration
order = record {
  id = "o-1";
  correlation_id = "p-1";
  definition_id = "d-1";
  state = running;
  state_timestamp = 3;
  created_timestamp = 1;
  orchestration_type = "cfm.orchestration.vpa.deploy";
  steps = first_step ∷ last_step ∷ [];
  processing_data = [];
  output_data = [];
  completed = [];
  engine_state = record { trace_context = ""; attempts = []; retries = []; error = [] };
  origin_trace_context = none;
  compensated_orchestration_id = "";
}

-- The store holds at most one orchestration, at a revision.
abbrev Store : Type 0
Store = Option (Orchestration × ℕ)

abbrev store_get : Store → Store × Result (Orchestration × ℕ)
store_get none = (none, err key_not_found)
store_get (some x) = (some x, ok x)

abbrev store_update : Store → Orchestration → ℕ → Store × Result ℕ
store_update none o r = if nat_eq r 0 then (some (o, 1), ok 1) else (none, err (api_error 10071))
store_update (some (o, s)) o' r =
    if nat_eq r s then (some (o', suc s), ok (suc s)) else (some (o, s), err (api_error 10071))

-- `outage` is the error of every publication of a response.
abbrev client : Option Error → MsgClient
client outage = record {
  World = Store;
  Bytes = Orchestration;
  marshal = λ o. ok o;
  unmarshal = λ o. ok o;
  get = λ w id. store_get w;
  update = λ w id o r. store_update w o r;
  publish_activity = λ w subject id m. (w, none);
  publish_response = λ w r. (w, outage);
  now = λ w. 7;
  new_id = λ w. "r-1";
  traceparent = λ w. "trace";
  error_text = λ e. 69 ∷ 33 ∷ [];
}

abbrev result : ActivityResult
result = record { result = complete; wait_on_reschedule = pos 0; error = none }

abbrev processor : ActivityProcessor
processor = record {
  process = λ id a p q. ran result p q false false;
  process_deploy = λ id a p q. ran result p q false false;
  process_dispose = λ id a p q. ran result p q false false;
}

abbrev message : Msg
message = record { num_delivered = some 2; ack_error = none; nak_error = none; term_error = none }

abbrev for_a : ActivityMessage
for_a = record { orchestration_id = "o-1"; activity = activity "a" }

abbrev stored_order : Store
stored_order = some (order, 4)

process_message-SettledOnce_example :
    SettledOnce
      (process_message (client none) processor (pos 0) (λ m. ok for_a) stored_order message).1
process_message-SettledOnce_example =
    process_message-SettledOnce (client none) processor (pos 0) (λ m. ok for_a) stored_order message

found_a : find_step order.steps "a" ≡ some first_step
unfolding find_step
found_a = refl

found_b : find_step order.steps "b" ≡ some first_step
unfolding find_step
found_b = refl

completion_answers-OnlyLast_example : OnlyLast (completion_answers order ("a" ∷ "b" ∷ []))
unfolding lookup
completion_answers-OnlyLast_example =
    completion_answers-OnlyLast order first_step "a" ("b" ∷ []) (found_a, (found_b, tt))
      (refl, (refl, tt)) (refl, (refl, tt)) (refl, (refl, tt))

abbrev short_message : List ℕ
short_message = 69 ∷ 33 ∷ []

truncate_error_example :
    (length (truncate_error short_message) ≤ max_persisted_error_bytes)
    × (((length short_message ≤ max_persisted_error_bytes)
          × (truncate_error short_message ≡ short_message))
        ⊎ ((cut : ℕ) × (truncate_error short_message ≡ take cut short_message ++ marker)
            × IsCut short_message (max_persisted_error_bytes - length marker) cut))
truncate_error_example = truncate_error_lem short_message

-- The write at a stale revision is refused, and the second one accepted.
abbrev mark_a : ℕ → Orchestration → Orchestration
mark_a now stored = keep_completed order "a" stored

abbrev marked : Orchestration
marked = record order { completed = ("a", tt) ∷ [] }

update_orchestration_iff_example :
    (update_orchestration (client none) stored_order order 3 mark_a
      ≡ (some (marked, 5), ok (marked, 5)))
    ↔ ((k : ℕ) × (k < max_update_conflicts)
        × Race (client none) mark_a k stored_order order 3 (some (marked, 5)) marked 5)
update_orchestration_iff_example =
    update_orchestration_iff (client none) mark_a stored_order order 3 (some (marked, 5)) marked 5

completion_written :
    update_orchestration (client none) stored_order order 3 mark_a
    ≡ (some (marked, 5), ok (marked, 5))
unfolding update_orchestration keep_completed keep_data is_revision_conflict read_orchestration
    merge insert merge_engine_state
completion_written = refl

completion_recorded_example :
    Written
      (client none)
      (λ now stored. keep_completed order "a" stored)
      stored_order
      order
      3
      (some (marked, 5))
      marked
      (λ now stored. Completes "a" stored marked)
completion_recorded_example =
    completion_recorded (client none) stored_order order 3 "a" (some (marked, 5)) marked 5
      completion_written

process_on_activity_completion-Proceeds_example :
    Proceeds
      (client none)
      (some (marked, 5))
      marked
      5
      message
      "a"
      (process_on_activity_completion (client none) stored_order order 3 message "a")
process_on_activity_completion-Proceeds_example =
    process_on_activity_completion-Proceeds (client none) stored_order order 3 message "a"
      (some (marked, 5)) marked 5 completion_written

abbrev failed_order : Orchestration
failed_order = keep_errored order (69 ∷ 33 ∷ []) 7 order

failure_written :
    update_orchestration
      (client none)
      stored_order
      order
      4
      (λ now stored. keep_errored order (69 ∷ 33 ∷ []) now stored)
    ≡ (some (failed_order, 5), ok (failed_order, 5))
unfolding update_orchestration
failure_written = refl

failure_recorded_example :
    Written
      (client none)
      (λ now stored. keep_errored order (69 ∷ 33 ∷ []) now stored)
      stored_order
      order
      4
      (some (failed_order, 5))
      failed_order
      (λ now stored. Fails now stored failed_order)
failure_recorded_example =
    failure_recorded (client none) stored_order order 4 (69 ∷ 33 ∷ []) (some (failed_order, 5))
      failed_order 5 failure_written

abbrev again : ActivityResult
again = record { result = retry_error; wait_on_reschedule = pos 9; error = none }

not_final : is_final_delivery message activity_max_deliver ≡ false
unfolding is_final_delivery delivery_count
not_final = refl

abbrev refusing : ActivityProcessor
refusing = record {
  process = λ id a p q. panicked;
  process_deploy = λ id a p q. panicked;
  process_dispose = λ id a p q. panicked;
}

completed_not_rerun_example :
    on_read (client none) processor (pos 0) stored_order marked 4 message (activity "a")
    ≡ on_read (client none) refusing (pos 0) stored_order marked 4 message (activity "a")
unfolding lookup
completed_not_rerun_example =
    completed_not_rerun (client none) processor refusing (pos 0) stored_order marked 4 message
      (activity "a") refl not_final

abbrev fresh_order : Orchestration
fresh_order = record order { state = initialized }

abbrev fresh_store : Store
fresh_store = some (fresh_order, 1)

abbrev running_store : Store
running_store = some (set_state fresh_order running 7, 2)
