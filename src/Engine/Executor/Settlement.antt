-- ===== src/Engine/Executor/Settlement.antt =====
-- How an activity message is settled (pmanager/natsorchestration/activity.go).
use cfm.Prelude.{
  ℕ, ◌≤◌, ◌≡◌, refl, inl, inr, String, Bool, true, false, not, ◌&&◌, ◌||◌, Option, none, some, ℤ,
  length, if◌then◌else◌, has, arith,
}
use cfm.Errors.{Error, wrapped, Result, ok, err, Result-cases}
use cfm.Nats.Retry.{
  Msg, Handled, ack_message, nak_error_with, is_final_delivery, activity_max_deliver,
}
use cfm.Nats.Processor.{term_on_panic}
use cfm.Orchestration.{is_completed, is_errored, Activity, Orchestration, ActivityMessage}
use cfm.Engine.Client.{MsgClient}
use cfm.Engine.Activity.{
  ResultType, ActivityResult, fatal_error, wait, complete, schedule, retry_error, other,
  ActivityProcessor, Ran, panicked, ran,
}
use cfm.Engine.Handlers.{
  handle_orchestration_completion, proceed, process_on_activity_completion, handle_fatal_error,
  handle_retry_error, publish_then, fatal_returned, mark_errored, retry_or_give_up, after_persist,
  unsettled,
}
use cfm.Engine.Executor.{
  rescheduled, drop_unread, with_trace, count_attempt, after_read_orchestration, on_attempt,
  on_redelivered, on_result, on_run, on_read, process_message,
}

-- At most one of Ack, NakWithDelay and Term was called.
abbrev pub SettledOnce : Handled → Type 0
SettledOnce h = length h.settled ≤ 1

if-SettledOnce {ℓ} :
    {W : Type ℓ} (b : Bool) (x y : W × Handled)
    → SettledOnce x.1
    → SettledOnce y.1
    → SettledOnce (if b then x else y).1
if-SettledOnce true x y s t = s
if-SettledOnce false x y s t = t

module _ (c : MsgClient) where
  open c use {World}

  completion-SettledOnce :
      (w : World) (o : Orchestration) (r : ℕ) (msg : Msg)
      → SettledOnce (handle_orchestration_completion c w o r msg).1
  unfolding handle_orchestration_completion ack_message nak_error_with
  completion-SettledOnce w o r msg = ground arith

  proceed-SettledOnce :
      (w : World) (o : Orchestration) (r : ℕ) (msg : Msg) (k : String)
      → SettledOnce (proceed c w o r msg k).1
  unfolding proceed ack_message nak_error_with
  proceed-SettledOnce w o r msg k = ground (arith, completion-SettledOnce w o r msg)

  on_completion-SettledOnce :
      (w : World) (o : Orchestration) (r : ℕ) (msg : Msg) (k : String)
      → SettledOnce (process_on_activity_completion c w o r msg k).1
  unfolding process_on_activity_completion nak_error_with
  on_completion-SettledOnce w o r msg k = grind (arith, proceed-SettledOnce)

  publish-SettledOnce :
      (w : World) (o : Orchestration) (h : Handled)
      → SettledOnce h
      → SettledOnce (publish_then c w o h).1
  publish-SettledOnce w o h s = ground arith

  fatal-SettledOnce :
      (w : World) (o : Orchestration) (r : ℕ) (e : Option Error) (msg : Msg)
      → SettledOnce (handle_fatal_error c w o r e msg).1
  unfolding handle_fatal_error term_on_panic
  fatal-SettledOnce w o r none msg = ground arith
  fatal-SettledOnce w o r (some e) msg =
      let (w', o') = mark_errored c w o r e in
      publish-SettledOnce w' o' (fatal_returned msg e) (omega arith)

  retry_or_give_up-SettledOnce :
      (b : Bool) (w : World) (o : Orchestration) (r : ℕ) (msg : Msg) (n : ℕ) (d : ℤ) (e : Error)
      → SettledOnce (retry_or_give_up c b w o r msg n d e).1
  unfolding retry_or_give_up
  retry_or_give_up-SettledOnce true w o r msg n d e = fatal-SettledOnce w o r (some _) msg
  retry_or_give_up-SettledOnce false w o r msg n d e = omega arith

  persist-SettledOnce :
      (msg : Msg) (h : Handled) (p : World × Option Error)
      → SettledOnce h
      → SettledOnce (after_persist msg h p).1
  unfolding nak_error_with
  persist-SettledOnce msg h (w, none) s = s
  persist-SettledOnce msg h (w, some e) s = omega arith

module _ (c : MsgClient) (processor : ActivityProcessor) (configured : ℤ) where
  open c use {World}

  on_result-SettledOnce :
      (w : World) (o : Orchestration) (r : ℕ) (msg : Msg) (a : Activity) (x : ActivityResult)
      → SettledOnce (on_result c processor configured w o r msg a x).1
  unfolding on_result handle_retry_error ack_message
  on_result-SettledOnce w o r msg a x = go x.result refl
    where
      go :
          (t : ResultType)
          → x.result ≡ t
          → SettledOnce (on_result c processor configured w o r msg a x).1
      go wait q = rw (q, on_result) (persist-SettledOnce c msg (ack_message msg) _ (omega arith))
      go complete q = rw (q, on_result) (on_completion-SettledOnce c w o r msg a.id)
      go schedule q =
          rw (q, on_result)
            (persist-SettledOnce c msg (rescheduled msg x.wait_on_reschedule) _ (omega arith))
      go retry_error q = rw (q, on_result) (retry_or_give_up-SettledOnce c _ w _ r msg _ _ _)
      go fatal_error q = rw (q, on_result) (fatal-SettledOnce c w o r x.error msg)
      go (other n) q = rw (q, on_result) (on_completion-SettledOnce c w o r msg a.id)

  on_run-SettledOnce :
      (w : World) (o : Orchestration) (r : ℕ) (msg : Msg) (a : Activity) (x : Ran)
      → SettledOnce (on_run c processor configured w o r msg a x).1
  unfolding on_run term_on_panic
  on_run-SettledOnce w o r msg a panicked = omega arith
  on_run-SettledOnce w o r msg a (ran x p q d e) = on_result-SettledOnce w _ r msg a x

  on_attempt-SettledOnce :
      (b : Bool) (w : World) (o : Orchestration) (r : ℕ) (msg : Msg) (a : Activity)
      → SettledOnce (on_attempt c processor configured b w o r msg a).1
  unfolding on_attempt
  on_attempt-SettledOnce true w o r msg a = fatal-SettledOnce c w o r (some _) msg
  on_attempt-SettledOnce false w o r msg a = on_run-SettledOnce w o r msg a _

  on_redelivered-SettledOnce :
      (w : World) (o : Orchestration) (r : ℕ) (msg : Msg) (a : Activity)
      → SettledOnce (on_redelivered c processor configured w o r msg a).1
  unfolding on_redelivered ack_message
  on_redelivered-SettledOnce w o r msg a =
      if-SettledOnce (is_completed o.state || is_errored o.state) (w, ack_message msg)
        (process_on_activity_completion c w o r msg a.id) (omega arith)
        (on_completion-SettledOnce c w o r msg a.id)

  on_read-SettledOnce :
      (w : World) (o : Orchestration) (r : ℕ) (msg : Msg) (a : Activity)
      → SettledOnce (on_read c processor configured w o r msg a).1
  unfolding on_read
  on_read-SettledOnce w o r msg a =
      let o' = with_trace o "" in
      let final = is_final_delivery msg activity_max_deliver in
      if-SettledOnce (has o'.completed a.id && not final)
        (on_redelivered c processor configured w o' r msg a)
        (on_attempt c processor configured final w (count_attempt o' a.id) r msg a)
        (on_redelivered-SettledOnce w o' r msg a)
        (on_attempt-SettledOnce final w (count_attempt o' a.id) r msg a)

  after_read-SettledOnce :
      (msg : Msg) (a : Activity) (p : World × Result (Orchestration × ℕ))
      → SettledOnce (after_read_orchestration c processor configured msg a p).1
  after_read-SettledOnce msg a (w, ok (o, r)) = on_read-SettledOnce w o r msg a
  after_read-SettledOnce msg a (w, err e) =
      if-SettledOnce (is_final_delivery msg activity_max_deliver) (w, drop_unread msg e)
        (w, unsettled (wrapped "failed to read orchestration data" e)) (omega arith) (omega arith)

  module _ (decode : Msg → Result ActivityMessage) where
    -- Whatever an activity, the store and the server do, a message is settled at most once.
    pub process_message-SettledOnce :
        (w : World) (msg : Msg)
        → SettledOnce (process_message c processor configured decode w msg).1
    unfolding process_message
    process_message-SettledOnce w msg = elim (Result-cases (decode msg)) [
      | inl (e, q) ↦ rw (q, process_message) (omega arith)
      | inr (m, q) ↦ rw (q, process_message) (after_read-SettledOnce msg m.activity _)
    ]
