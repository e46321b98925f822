-- ===== src/Engine/Executor/Proceeding.antt =====
-- When an orchestration goes on to its next step: processOnActivityCompletion
-- (pmanager/natsorchestration/activity.go) and CanProceedToNextStep (pmanager/api/types.go).
use cfm.Prelude.{
  ◌∙◌, eq_refl, ℕ, ◌≡◌, refl, ap, sym, subst, inl, inr, String, true, false, Option, none, some,
  List, [], ◌∷◌, ◌++◌, All, Map, has, eq_iff, Bool-cases, Option-cases, arith,
}
use cfm.Errors.{Error, plain, Result, ok, err}
use cfm.Nats.Retry.{Msg, Handled, ack_message, nak_error_with}
use cfm.Orchestration.{
  is_errored, Activity, OrchestrationStep, Orchestration, others_completed, find_step,
  get_step_for_activity, can_proceed_to_next_step, get_next_step_activities,
}
use cfm.Engine.Client.{MsgClient, enqueue_activity_messages, update_orchestration}
use cfm.Engine.Activity.{keep_completed}
use cfm.Engine.Handlers.{
  nak_wrapped, handle_orchestration_completion, proceed, process_on_activity_completion,
}
use cfm.Engine.Executor.Outcomes.{completion_recorded}

-- Every one of the activities is completed.
abbrev pub AllDone : Map (Unit {0}) → List Activity → Type 0
AllDone done acts = All (λ a. has done a.id ≡ true) acts

-- One of the activities is not completed.
abbrev pub Lacks : Map (Unit {0}) → List Activity → Type 0
Lacks done acts =
    (before : List Activity) × (a : Activity) × (after : List Activity) × (acts
      ≡ before ++ a ∷ after)
    × (has done a.id ≡ false)

Lacks-cons :
    (done : Map (Unit {0})) (b : Activity) (acts : List Activity)
    → Lacks done acts
    → Lacks done (b ∷ acts)
Lacks-cons done b acts (before, a, after, e, n) = (b ∷ before, a, after, ap (λ l. b ∷ l) e, n)

others_completed-AllDone :
    (done : Map (Unit {0})) (k : String) (acts : List Activity)
    → has done k ≡ true
    → others_completed done k acts ≡ true
    → AllDone done acts
unfolding others_completed
others_completed-AllDone done k [] marked h = tt
others_completed-AllDone done k (a ∷ as') marked h =
    (ground (arith, eq_iff a.id k), others_completed-AllDone done k as' marked (ground arith))

others_completed-Lacks :
    (done : Map (Unit {0})) (k : String) (acts : List Activity)
    → others_completed done k acts ≡ false
    → Lacks done acts
unfolding others_completed
others_completed-Lacks done k [] h = cc
others_completed-Lacks done k (a ∷ as') h = elim (Bool-cases (has done a.id)) [
  | inl y ↦ Lacks-cons done a as' (others_completed-Lacks done k as' (ground arith))
  | inr n ↦ ([], a, as', refl, n)
]

module _ (c : MsgClient) where
  open c use {World}

  -- What follows an accepted write `o'` that marks activity `k` completed.
  pub data Proceeds (w : World) (o' : Orchestration) (r' : ℕ) (msg : Msg) (k : String)
      : World × Handled → Type 0 where
    stopped : is_errored o'.state ≡ true → Proceeds w o' r' msg k (w, ack_message msg)
    unknown :
        (e : Error)
        → is_errored o'.state ≡ false
        → find_step o'.steps k ≡ none
        → Proceeds w o' r' msg k (w, nak_wrapped msg "failed to proceed with orchestration" e)
    waiting :
        (step : OrchestrationStep)
        → is_errored o'.state ≡ false
        → find_step o'.steps k ≡ some step
        → Lacks o'.completed step.activities
        → Proceeds w o' r' msg k (w, ack_message msg)
    ended :
        (step : OrchestrationStep)
        → is_errored o'.state ≡ false
        → find_step o'.steps k ≡ some step
        → AllDone o'.completed step.activities
        → get_next_step_activities o' k ≡ []
        → Proceeds w o' r' msg k (handle_orchestration_completion c w o' r' msg)
    enqueued :
        (step : OrchestrationStep) (a : Activity) (next : List Activity) (w' : World)
        → is_errored o'.state ≡ false
        → find_step o'.steps k ≡ some step
        → AllDone o'.completed step.activities
        → get_next_step_activities o' k ≡ a ∷ next
        → enqueue_activity_messages c w o'.id (a ∷ next) ≡ (w', none)
        → Proceeds w o' r' msg k (w', ack_message msg)
    not_enqueued :
        (step : OrchestrationStep) (a : Activity) (next : List Activity) (w' : World) (e : Error)
        → is_errored o'.state ≡ false
        → find_step o'.steps k ≡ some step
        → AllDone o'.completed step.activities
        → get_next_step_activities o' k ≡ a ∷ next
        → enqueue_activity_messages c w o'.id (a ∷ next) ≡ (w', some e)
        → Proceeds w o' r' msg k
            (w', nak_wrapped msg "failed to enqueue next orchestration activities" e)

  abbrev after_enqueued : Msg → World × Option Error → World × Handled
  after_enqueued msg x = elim x.1 [
    | none ↦ (x.0, ack_message msg)
    | some e ↦ (x.0, nak_wrapped msg "failed to enqueue next orchestration activities" e)
  ]

  proceed-Proceeds :
      (w : World) (o' : Orchestration) (r' : ℕ) (msg : Msg) (k : String)
      → has o'.completed k ≡ true
      → Proceeds w o' r' msg k (proceed c w o' r' msg k)
  unfolding proceed can_proceed_to_next_step get_step_for_activity
  proceed-Proceeds w o' r' msg k marked = elim (Bool-cases (is_errored o'.state)) [
    | inl y ↦ rw (y, proceed) (stopped y)
    | inr n ↦ elim (Option-cases (find_step o'.steps k)) [
      | inl q ↦ rw (n, q, proceed) (unknown (plain "step not found for activity") n q)
      | inr (step, q) ↦ elim (Bool-cases (others_completed o'.completed k step.activities)) [
        | inl y ↦ go step n q y (get_next_step_activities o' k) refl
        | inr m ↦
            rw (n, q, m, proceed)
              (waiting step n q (others_completed-Lacks o'.completed k step.activities m))
      ]
    ]
  ]
    where
      go :
          (step : OrchestrationStep)
          → is_errored o'.state ≡ false
          → find_step o'.steps k ≡ some step
          → others_completed o'.completed k step.activities ≡ true
          → (l : List Activity) → get_next_step_activities o' k ≡ l
          → Proceeds w o' r' msg k (proceed c w o' r' msg k)
      go step n q y [] e =
          rw (n, q, y, e, proceed)
            (ended step n q (others_completed-AllDone o'.completed k step.activities marked y) e)
      go step n q y (a ∷ next) e =
          rw (n, q, y, e, proceed) (sent (enqueue_activity_messages c w o'.id (a ∷ next)) refl)
        where
          sent :
              (x : World × Option Error)
              → enqueue_activity_messages c w o'.id (a ∷ next) ≡ x
              → Proceeds w o' r' msg k (after_enqueued msg x)
          sent (w', none) h =
              enqueued step a next w' n q
                (others_completed-AllDone o'.completed k step.activities marked y) e h
          sent (w', some x) h =
              not_enqueued step a next w' x n q
                (others_completed-AllDone o'.completed k step.activities marked y) e h

  abbrev after_recorded : Msg → String → World × Result (Orchestration × ℕ) → World × Handled
  after_recorded msg k x = elim x.1 [
    | err e ↦ (x.0, nak_error_with msg e)
    | ok (o', r') ↦ proceed c x.0 o' r' msg k
  ]

  -- Once the completion of an activity is written, the orchestration goes on only if the written state is
  -- not errored and every activity of that activity's step is marked in it: the activities of the next step
  -- are enqueued then, or the orchestration ends if there are none. If one of them is not marked, or if the
  -- state is errored, the message is acknowledged in the world of the write, with nothing published. If the
  -- activity is in no step, or the enqueueing fails, the message is asked to be delivered again.
  pub process_on_activity_completion-Proceeds :
      (w : World) (o : Orchestration) (r : ℕ) (msg : Msg) (k : String) (w' : World)
      (o' : Orchestration) (r' : ℕ)
      → update_orchestration c w o r (λ now stored. keep_completed o k stored) ≡ (w', ok (o', r'))
      → Proceeds w' o' r' msg k (process_on_activity_completion c w o r msg k)
  unfolding process_on_activity_completion
  process_on_activity_completion-Proceeds w o r msg k w' o' r' h =
      let marked = (completion_recorded c w o r k w' o' r' h).holds.marks k ∙ rw (eq_refl k) refl in
      subst (λ x. Proceeds w' o' r' msg k (after_recorded msg k x)) (sym h)
        (proceed-Proceeds w' o' r' msg k marked)
