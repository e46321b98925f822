-- ===== src/Engine/Executor.antt =====
-- processMessage of the NatsActivityExecutor (pmanager/natsorchestration/activity.go). Telemetry is left
-- out, except for the trace context that the stored state carries.
pub mod Settlement
pub mod Outcomes
pub mod Proceeding
use cfm.Prelude.{
  ℕ, suc, ◌+◌, String, Bool, true, false, not, ◌&&◌, ◌||◌, Option, none, some, List, [], ◌∷◌,
  lookup, insert, has, if◌then◌else◌, from_option, ℤ,
}
use cfm.Errors.{Error, plain, wrapped, joined, Result, ok, err}
use cfm.Nats.Retry.{
  Msg, acked, nak_delayed, termed, Handled, activity_max_deliver, is_final_delivery, ack_message,
  nak_error_with,
}
use cfm.Nats.Processor.{term_on_panic}
use cfm.Orchestration.{is_completed, is_errored, Activity, Orchestration, ActivityMessage}
use cfm.Engine.Client.{MsgClient, read_orchestration}
use cfm.Engine.Activity.{
  ResultType, wait, complete, schedule, retry_error, fatal_error, other, ActivityResult, Ran,
  panicked, ran, ActivityProcessor, max_activity_retries, run_activity,
}
use cfm.Engine.Handlers.{
  unsettled, after_persist, persist_state, process_on_activity_completion, handle_fatal_error,
  handle_retry_error,
}

-- The error with which a message is dropped whose orchestration cannot be read on its last delivery.
abbrev pub drop_unread : Msg → Error → Handled
drop_unread msg e = record {
  settled = termed ∷ [];
  returned = elim msg.term_error [
    | none ↦ some (wrapped "failed to read orchestration data" e)
    | some t ↦ some (
        wrapped "failed to read orchestration data" (joined e (wrapped "failed to TERM message" t)))
  ];
}

-- The attempt that starts now is counted, whether or not it is the first.
unfoldable pub count_attempt : Orchestration → String → Orchestration
count_attempt o k =
    let attempt = suc (from_option 0 (lookup o.engine_state.attempts k)) in
    let state = record o.engine_state { attempts = insert o.engine_state.attempts k attempt } in
    record o { engine_state = state }

abbrev pub with_trace : Orchestration → String → Orchestration
with_trace o t =
    let state = record o.engine_state { trace_context = t } in record o { engine_state = state }

abbrev pub rescheduled : Msg → ℤ → Handled
rescheduled msg delay = record {
  settled = nak_delayed delay ∷ [];
  returned = elim msg.nak_error [
    | none ↦ none
    | some x ↦ some (wrapped "failed to reschedule schedule activity" x)
  ];
}

module _ (c : MsgClient) (processor : ActivityProcessor) (configured_retries : ℤ) where
  open c use {World}

  -- The `switch` on the result. The orchestration carries the data that the activity left.
  unfoldable pub on_result :
      World → Orchestration → ℕ → Msg → Activity → ActivityResult → World × Handled
  unfolding persist_state process_on_activity_completion handle_retry_error max_activity_retries
  on_result w o revision msg a r = elim r.result [
    | retry_error ↦
        handle_retry_error c w (max_activity_retries configured_retries) o revision msg a.id r
    | fatal_error ↦ handle_fatal_error c w o revision r.error msg
    | wait ↦ after_persist msg (ack_message msg) (persist_state c w o revision)
    | schedule ↦
        after_persist msg (rescheduled msg r.wait_on_reschedule)
          (persist_state c w (with_trace o (c.traceparent w)) revision)
    | complete ↦ process_on_activity_completion c w o revision msg a.id
    | other _ ↦ process_on_activity_completion c w o revision msg a.id
  ]

  unfoldable pub on_run : World → Orchestration → ℕ → Msg → Activity → Ran → World × Handled
  unfolding on_result term_on_panic
  on_run w o revision msg a panicked = (w, term_on_panic msg)
  on_run w o revision msg a (ran r processing output deadline parent) =
      on_result w (record o { processing_data = processing; output_data = output }) revision msg a r

  -- The message of an activity that has completed before: its orchestration has ended, or goes on.
  unfoldable pub on_redelivered : World → Orchestration → ℕ → Msg → Activity → World × Handled
  unfolding process_on_activity_completion
  on_redelivered w o revision msg a =
      if is_completed o.state || is_errored o.state
      then (w, ack_message msg)
      else process_on_activity_completion c w o revision msg a.id

  -- A new attempt: on the last delivery the activity is given up on, else it runs.
  unfoldable pub on_attempt : Bool → World → Orchestration → ℕ → Msg → Activity → World × Handled
  unfolding on_run run_activity
  on_attempt true w o revision msg a =
      handle_fatal_error c w o revision
        (some (plain "activity was delivered too often without completing")) msg
  on_attempt false w o revision msg a = on_run w o revision msg a (run_activity processor o a)

  -- What follows once the orchestration is read.
  unfoldable pub on_read : World → Orchestration → ℕ → Msg → Activity → World × Handled
  unfolding on_redelivered on_attempt count_attempt
  on_read w stored revision msg a =
      let final = is_final_delivery msg activity_max_deliver in
      let o = with_trace stored "" in
      if has o.completed a.id && not final
      then on_redelivered w o revision msg a
      else on_attempt final w (count_attempt o a.id) revision msg a

  abbrev pub after_read_orchestration :
      Msg → Activity → World × Result (Orchestration × ℕ) → World × Handled
  after_read_orchestration msg a (w, ok (o, revision)) = on_read w o revision msg a
  after_read_orchestration msg a (w, err e) =
      if is_final_delivery msg activity_max_deliver
      then (w, drop_unread msg e)
      else (w, unsettled (wrapped "failed to read orchestration data" e))

  module _ (decode : Msg → Result ActivityMessage) where
    unfoldable pub process_message : World → Msg → World × Handled
    unfolding on_read read_orchestration
    process_message w msg = elim (decode msg) [
      | err e ↦ (
        w,
        record {
          settled = acked ∷ [];
          returned = some (wrapped "failed to unmarshal orchestration message" e);
        },
      )
      | ok m ↦ after_read_orchestration msg m.activity (read_orchestration c w m.orchestration_id)
    ]
