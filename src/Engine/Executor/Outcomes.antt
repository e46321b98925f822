-- ===== src/Engine/Executor/Outcomes.antt =====
-- What an activity message leaves behind (pmanager/natsorchestration/activity.go).
use cfm.Prelude.{
  ◌||◌, ℕ, ◌≤◌, ◌≡◌, refl, String, true, false, none, List, ℤ, length, has, arith, lookup-insert,
  str_eq,
}
use cfm.Errors.{ok}
use cfm.Nats.Retry.{Msg, is_final_delivery, activity_max_deliver}
use cfm.Nats.Processor.{term_on_panic}
use cfm.Orchestration.{errored, Activity, Orchestration, set_state}
use cfm.Engine.Client.{MsgClient, update_orchestration}
use cfm.Engine.Client.Update.{Held, update-Wins}
use cfm.Engine.Truncate.{max_persisted_error_bytes}
use cfm.Engine.Truncate.Bounds.{truncate_error_lem}
use cfm.Engine.Activity.{
  ActivityResult, fatal_error, ActivityProcessor, keep_data, keep_completed, keep_errored,
}
use cfm.Engine.Handlers.{handle_fatal_error}
use cfm.Engine.Executor.{on_result, on_read, on_redelivered}

-- The activities marked in `o'` are `k` and those marked in `stored`.
pub record Completes (k : String) (stored o' : Orchestration) : Type 0 where
  pub marks : (j : String) → has o'.completed j ≡ (str_eq k j || has stored.completed j)
  pub state : o'.state ≡ stored.state
  pub steps : o'.steps ≡ stored.steps

keep_completed-Completes :
    (from : Orchestration) (k : String) (stored : Orchestration)
    → Completes k stored (keep_completed from k stored)
unfolding keep_completed keep_data
keep_completed-Completes from k stored = record {
  marks = λ j. rw (lookup-insert stored.completed k j tt) (ground arith);
  state = refl;
  steps = refl;
}

-- What a fatal error leaves: an errored orchestration with a bounded error text.
pub record Fails (now : ℕ) (stored o' : Orchestration) : Type 0 where
  pub state : o'.state ≡ errored
  pub time : o'.state_timestamp ≡ now
  pub bounded : length o'.engine_state.error ≤ max_persisted_error_bytes
  pub completed : o'.completed ≡ stored.completed
  pub steps : o'.steps ≡ stored.steps

keep_errored-Fails :
    (from : Orchestration) (text : List ℕ) (now : ℕ) (stored : Orchestration)
    → Fails now stored (keep_errored from text now stored)
unfolding keep_errored keep_data set_state
keep_errored-Fails from text now stored = record {
  state = refl;
  time = refl;
  bounded = (truncate_error_lem text).0;
  completed = refl;
  steps = refl;
}

module _ (c : MsgClient) where
  open c use {World}

  -- What an update that was given `o` at revision `r` wrote, and what it was made of: `o`, or what was
  -- read after the last lost race, at the revision of that.
  pub record Written (f : ℕ → Orchestration → Orchestration) (w : World) (o : Orchestration) (r : ℕ)
      (w' : World) (o' : Orchestration) (P : ℕ → Orchestration → Type 0) : Type 0 where
    pub before : World
    pub stored : Orchestration
    pub bytes : c.Bytes
    pub revision : ℕ
    pub revision' : ℕ
    pub held : Held c f w o r before stored revision
    pub encoded : c.marshal o' ≡ ok bytes
    pub written : c.update before o'.id bytes revision ≡ (w', ok revision')
    pub holds : P (c.now before) stored

  -- When the update of a completed activity succeeds, the store has accepted a state made of what the
  -- update was given or, after lost races, of what it read last, at the revision of that: the activity is
  -- marked completed, no mark is lost, no other is added, and the state and the steps are as they were.
  pub completion_recorded :
      (w : World) (o : Orchestration) (r : ℕ) (k : String) (w' : World) (o' : Orchestration)
      (r' : ℕ)
      → update_orchestration c w o r (λ now stored. keep_completed o k stored) ≡ (w', ok (o', r'))
      → Written
          (λ now stored. keep_completed o k stored)
          w
          o
          r
          w'
          o'
          (λ now stored. Completes k stored o')
  completion_recorded w o r k w' o' r' h =
      let f = λ (now : ℕ) (stored : Orchestration). keep_completed o k stored in
      let (w0, stored, r0, held, x) = update-Wins c f w o r w' o' r' h in
      record {
        before = w0;
        stored = stored;
        bytes = x.bytes;
        revision = r0;
        revision' = r';
        held = held;
        encoded = x.encoded;
        written = x.written;
        holds = rw x.applied (keep_completed-Completes o k stored);
      }

  -- When the update of a fatal error succeeds, the store has accepted an errored state with the time of
  -- the write, an error text of at most 2048 bytes, and the marks and steps of what the update was given
  -- or, after lost races, of what it read last, at the revision of that.
  pub failure_recorded :
      (w : World) (o : Orchestration) (r : ℕ) (text : List ℕ) (w' : World) (o' : Orchestration)
      (r' : ℕ)
      → update_orchestration c w o r (λ now stored. keep_errored o text now stored)
        ≡ (w', ok (o', r'))
      → Written
          (λ now stored. keep_errored o text now stored)
          w
          o
          r
          w'
          o'
          (λ now stored. Fails now stored o')
  failure_recorded w o r text w' o' r' h =
      let f = λ (now : ℕ) (stored : Orchestration). keep_errored o text now stored in
      let (w0, stored, r0, held, x) = update-Wins c f w o r w' o' r' h in
      record {
        before = w0;
        stored = stored;
        bytes = x.bytes;
        revision = r0;
        revision' = r';
        held = held;
        encoded = x.encoded;
        written = x.written;
        holds = rw x.applied (keep_errored-Fails o text (c.now w0) stored);
      }

  -- A fatal result without an error panics in the update function: the message is terminated and the
  -- store is not written, so the orchestration is never marked errored.
  fatal_without_error :
      (processor : ActivityProcessor) (configured : ℤ) (w : World) (o : Orchestration) (r : ℕ)
      (msg : Msg) (a : Activity) (x : ActivityResult)
      → x.result ≡ fatal_error
      → x.error ≡ none
      → on_result c processor configured w o r msg a x ≡ (w, term_on_panic msg)
  unfolding on_result handle_fatal_error
  fatal_without_error processor configured w o r msg a x q n = rw (q, on_result, n)

  -- The message of an activity that is marked completed never runs the activity again, unless it is the
  -- last delivery: the outcome is the same whatever the processor would do.
  pub completed_not_rerun :
      (p q : ActivityProcessor) (configured : ℤ) (w : World) (o : Orchestration) (r : ℕ) (msg : Msg)
      (a : Activity)
      → has o.completed a.id ≡ true
      → is_final_delivery msg activity_max_deliver ≡ false
      → on_read c p configured w o r msg a ≡ on_read c q configured w o r msg a
  unfolding on_read on_redelivered
  completed_not_rerun p q configured w o r msg a done more = rw (done, more)
