-- ===== src/Engine/Orchestrator.antt =====
-- NatsOrchestrator (pmanager/natsorchestration/orchestration.go): starting an orchestration, and resuming
-- a start that did not complete. `carrier` is what the trace propagator injects.
pub mod Start
pub mod Ready
use cfm.Prelude.{
  ℕ, String, Bool, true, false, Option, none, some, List, [], ◌∷◌, Map, if◌then◌else◌,
}
use cfm.Errors.{
  Error, plain, wrapped, key_not_found, in_chain, Result, ok, err, new_recoverable_wrapped_error,
}
use cfm.Orchestration.{
  running, is_initialized, Activity, OrchestrationStep, Orchestration, set_state,
}
use cfm.Engine.Client.{
  MsgClient, enqueue_activity_messages, read_orchestration, update_orchestration,
  is_revision_conflict,
}

-- getInitialActivities, over o.Steps
unfoldable pub initial_of : List OrchestrationStep → List Activity
initial_of [] = []
initial_of (step ∷ steps) = elim step.activities [ [] ↦ initial_of steps | a ∷ as' ↦ a ∷ as' ]

unfoldable pub get_initial_activities : Orchestration → List Activity
unfolding initial_of
get_initial_activities o = initial_of o.steps

unfoldable pub with_origin : Map String → Orchestration → Orchestration
with_origin [] o = o
with_origin (entry ∷ carrier) o = elim o.origin_trace_context [
  | none ↦ record o { origin_trace_context = some (entry ∷ carrier) }
  | some _ ↦ o
]

-- The update function of start.
unfoldable pub mark_running : ℕ → Orchestration → Orchestration
unfolding set_state
mark_running now o = if is_initialized o.state then set_state o running now else o

abbrev equals_key_not_found : Error → Bool
equals_key_not_found key_not_found = true
equals_key_not_found _ = false

-- errors.Is(err, jetstream.ErrKeyNotFound)
unfoldable pub is_key_not_found : Error → Bool
unfolding in_chain
is_key_not_found e = in_chain equals_key_not_found e

module _ (c : MsgClient) where
  open c use {World}

  -- GetOrchestration: nil for a missing one
  abbrev found_or_nil : World × Result (Orchestration × ℕ) → World × Result (Option Orchestration)
  found_or_nil (w, ok (o, revision)) = (w, ok (some o))
  found_or_nil (w, err e) =
      if is_key_not_found e
      then (w, ok none)
      else (w, err (wrapped "error reading orchestration" e))

  unfoldable pub get_orchestration : World → String → World × Result (Option Orchestration)
  unfolding read_orchestration is_key_not_found
  get_orchestration w id = found_or_nil (read_orchestration c w id)

  abbrev pub after_running : World × Result (Orchestration × ℕ) → World × Option Error
  after_running (w, ok _) = (w, none)
  after_running (w, err e) =
      (w, some (new_recoverable_wrapped_error (some e) "error marking orchestration as running"))

  abbrev pub after_enqueue : Orchestration → ℕ → World × Option Error → World × Option Error
  after_enqueue o revision (w, none) =
      after_running (update_orchestration c w o revision mark_running)
  after_enqueue o revision (w, some e) = (
    w,
    some (new_recoverable_wrapped_error (some e) "error enqueueing activities of orchestration"),
  )

  -- start: the first messages are published before the orchestration is marked running.
  unfoldable pub start : World → Orchestration → ℕ → World × Option Error
  unfolding enqueue_activity_messages update_orchestration mark_running get_initial_activities
      new_recoverable_wrapped_error
  start w o revision =
      after_enqueue o revision (enqueue_activity_messages c w o.id (get_initial_activities o))

  -- The orchestration exists already: its start is resumed if it did not complete.
  abbrev pub resume : World × Result (Orchestration × ℕ) → World × Option Error
  resume (w, err e) =
      (w, some (new_recoverable_wrapped_error (some e) "error reading existing orchestration"))
  resume (w, ok (existing, revision)) =
      if is_initialized existing.state then start w existing revision else (w, none)

  abbrev pub after_store : Orchestration → World × Result ℕ → World × Option Error
  after_store o (w, ok revision) = start w o revision
  after_store o (w, err e) =
      if is_revision_conflict e
      then resume (read_orchestration c w o.id)
      else (w, some (wrapped "error storing orchestration" e))

  abbrev pub store_new : World → Orchestration → World × Option Error
  store_new w o = elim (c.marshal o) [
    | err e ↦ (w, some (wrapped "error marshalling orchestration" e))
    | ok bytes ↦ after_store o (c.update w o.id bytes 0)
  ]

  unfoldable pub execute : Map String → World → Orchestration → World × Option Error
  unfolding get_initial_activities with_origin start
  execute carrier w o = elim (get_initial_activities o) [
    | [] ↦ (w, some (plain "orchestration has no activities"))
    | _ ∷ _ ↦ store_new w (with_origin carrier o)
  ]
