-- ===== src/Engine/Handlers.antt =====
-- The handlers of an activity's result (pmanager/natsorchestration/activity.go). Each gives the world
-- after it, how it settled the message, and the error it returned.
use cfm.Prelude.{
  ℕ, suc, String, Bool, true, false, not, Option, none, some, [], ◌∷◌, lookup, insert,
  if◌then◌else◌, from_option, leb, ℤ, pos, is_positive,
}
use cfm.Errors.{Error, plain, wrapped, Result, ok, err}
use cfm.Nats.Retry.{
  Msg, acked, nak_delayed, nak_backoff, Handled, retry_delay, ack_message, nak_error_with,
}
use cfm.Nats.Processor.{term_on_panic}
use cfm.Orchestration.{
  completed, is_errored, Orchestration, set_state, can_proceed_to_next_step,
  get_next_step_activities,
}
use cfm.Engine.Client.{
  MsgClient, OrchestrationResponse, enqueue_activity_messages, update_orchestration, last_tried,
  max_update_conflicts,
}
use cfm.Engine.Activity.{ActivityResult, keep_data, keep_completed, keep_errored}

abbrev pub unsettled : Error → Handled
unsettled e = record { settled = []; returned = some e }

-- An error returned after the message was asked to be delivered again.
abbrev pub nak_wrapped : Msg → String → Error → Handled
nak_wrapped msg text e =
    let h = nak_error_with msg e in
    record h { returned = elim h.returned [ none ↦ none | some x ↦ some (wrapped text x) ] }

-- A message whose state was persisted is settled; one whose state was not is delivered again.
abbrev pub after_persist {ℓ} : {W : Type ℓ} → Msg → Handled → W × Option Error → W × Handled
after_persist msg h (w', none) = (w', h)
after_persist msg h (w', some e) = (w', nak_error_with msg e)

abbrev pub fatal_returned : Msg → Error → Handled
fatal_returned msg e = record {
  settled = acked ∷ [];
  returned = some (wrapped "fatal failure while executing activity" e);
}

-- How often the activity has failed so far, this failure included.
abbrev pub retries_of : Orchestration → String → ℕ
retries_of o k = suc (from_option 0 (lookup o.engine_state.retries k))

abbrev pub count_retry : Orchestration → String → Orchestration
count_retry o k =
    let state = record o.engine_state {
      retries = insert o.engine_state.retries k (retries_of o k);
    } in
    record o { engine_state = state }

abbrev pub retry_returned : Msg → Error → Option Error
retry_returned msg e = elim msg.nak_error [
  | none ↦ some (wrapped "retriable failure when executing activity" e)
  | some x ↦ some (wrapped "retriable failure when executing activity message and NAK response" e)
]

module _ (c : MsgClient) where
  open c use {World}

  abbrev pub response : World → Orchestration → OrchestrationResponse
  response w o = record {
    id = c.new_id w;
    manifest_id = o.id;
    correlation_id = o.correlation_id;
    success = not (is_errored o.state);
    error_detail = "";
    orchestration_type = o.orchestration_type;
    properties = o.output_data;
    compensated_manifest_id = o.compensated_orchestration_id;
  }

  -- publishResponse: if it fails the message is left unsettled, else it is settled as given.
  abbrev pub after_publish : Handled → World × Option Error → World × Handled
  after_publish h (w', none) = (w', h)
  after_publish h (w', some e) = (w', unsettled e)

  abbrev pub publish_then : World → Orchestration → Handled → World × Handled
  publish_then w o h = after_publish h (c.publish_response w (response w o))

  -- persistState
  unfoldable pub persist_state : World → Orchestration → ℕ → World × Option Error
  unfolding update_orchestration keep_data
  persist_state w o revision =
      let (w', r) = update_orchestration c w o revision (λ now stored. keep_data o stored) in
      elim r [
        | ok _ ↦ (w', none)
        | err e ↦ (w', some (wrapped "failed to persist orchestration state" e))
      ]

  -- handleOrchestrationCompletion: the response is that of the orchestration before the update.
  abbrev pub after_marked :
      Orchestration → Msg → World × Result (Orchestration × ℕ) → World × Handled
  after_marked o msg (w', ok _) = publish_then w' o (ack_message msg)
  after_marked o msg (w', err e) = (
    w',
    record {
      settled = nak_backoff msg ∷ [];
      returned = some (plain "failed to mark orchestration as completed");
    },
  )

  unfoldable pub handle_orchestration_completion : World → Orchestration → ℕ → Msg → World × Handled
  unfolding update_orchestration set_state
  handle_orchestration_completion w o revision msg =
      after_marked o msg
        (update_orchestration c w o revision (λ now stored. set_state stored completed now))

  -- What follows the update of processOnActivityCompletion.
  unfoldable pub proceed : World → Orchestration → ℕ → Msg → String → World × Handled
  unfolding handle_orchestration_completion enqueue_activity_messages
  proceed w o revision msg k =
      if is_errored o.state then (w, ack_message msg) else elim (can_proceed_to_next_step o k) [
        | err e ↦ (w, nak_wrapped msg "failed to proceed with orchestration" e)
        | ok false ↦ (w, ack_message msg)
        | ok true ↦ elim (get_next_step_activities o k) [
          | [] ↦ handle_orchestration_completion w o revision msg
          | a ∷ next ↦
              let (w', e) = enqueue_activity_messages c w o.id (a ∷ next) in
              elim e [
                | none ↦ (w', ack_message msg)
                | some x ↦ (w', nak_wrapped msg "failed to enqueue next orchestration activities" x)
              ]
        ]
      ]

  unfoldable pub process_on_activity_completion :
      World → Orchestration → ℕ → Msg → String → World × Handled
  unfolding update_orchestration keep_completed proceed
  process_on_activity_completion w o revision msg k =
      let (w', r) = update_orchestration c w o revision (λ now stored. keep_completed o k stored) in
      elim r [
        | err e ↦ (w', nak_error_with msg e)
        | ok (o', revision') ↦ proceed w' o' revision' msg k
      ]

  -- The update of handleFatalError, and the orchestration that the update function wrote last.
  unfoldable pub mark_errored : World → Orchestration → ℕ → Error → World × Orchestration
  unfolding update_orchestration keep_errored last_tried
  mark_errored w o revision e =
      let f = λ (now : ℕ) (stored : Orchestration). keep_errored o (c.error_text e) now stored in
      let (w', r) = update_orchestration c w o revision f in
      (w', last_tried c max_update_conflicts w o revision f)

  -- handleFatalError. A missing error is a nil dereference in the update function: the panic is
  -- recovered by TermOnPanic before anything is written.
  unfoldable pub handle_fatal_error :
      World → Orchestration → ℕ → Option Error → Msg → World × Handled
  unfolding mark_errored term_on_panic
  handle_fatal_error w o revision none msg = (w, term_on_panic msg)
  handle_fatal_error w o revision (some e) msg =
      let (w', o') = mark_errored w o revision e in publish_then w' o' (fatal_returned msg e)

  -- The rest of handleRetryError, with the retry counted: is the limit reached?
  unfoldable pub retry_or_give_up :
      Bool → World → Orchestration → ℕ → Msg → ℕ → ℤ → Error → World × Handled
  unfolding handle_fatal_error persist_state
  retry_or_give_up true w o revision msg retries delay e =
      handle_fatal_error w o revision (some (wrapped "activity failed too often" e)) msg
  retry_or_give_up false w o revision msg retries delay e =
      let (w', ignored) = persist_state w o revision in
      let waits = if is_positive delay then delay else pos (retry_delay retries) in
      (w', record { settled = nak_delayed waits ∷ []; returned = retry_returned msg e })

  -- handleRetryError
  unfoldable pub handle_retry_error :
      World → ℕ → Orchestration → ℕ → Msg → String → ActivityResult → World × Handled
  unfolding retry_or_give_up
  handle_retry_error w max o revision msg k r =
      retry_or_give_up (leb max (retries_of o k)) w (count_retry o k) revision msg (retries_of o k)
        r.wait_on_reschedule (from_option (plain "activity requested a retry") r.error)
