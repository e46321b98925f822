-- ===== src/Orchestration/Steps.antt =====
-- Which step holds an activity, and which one follows it (pmanager/api/types.go).
use cfm.Prelude.{◌≡◌, ap, ◌∙◌, String, true, false, some, List, [], ◌∷◌, ◌++◌, All}
use cfm.Errors.{ok}
use cfm.Orchestration.{
  OrchestrationStep, Orchestration, has_activity, first_activities, find_step,
  get_step_for_activity, next_after, get_next_step_activities,
}

-- Is `k` an activity of none of these steps?
abbrev pub Lacks : String → List OrchestrationStep → Type 0
Lacks k = All (λ s. has_activity k s.activities ≡ false)

find_step-append :
    (k : String) (before rest : List OrchestrationStep) (step : OrchestrationStep)
    → Lacks k before
    → has_activity k step.activities ≡ true
    → find_step (before ++ step ∷ rest) k ≡ some step
unfolding find_step
find_step-append k [] rest step l h = rw h
find_step-append k (b ∷ bs) rest step l h = rw l.0 (find_step-append k bs rest step l.1 h)

next_after-append :
    (k : String) (before rest : List OrchestrationStep) (step : OrchestrationStep)
    → Lacks k before
    → has_activity k step.activities ≡ true
    → next_after (before ++ step ∷ rest) k ≡ first_activities rest
unfolding next_after
next_after-append k [] rest step l h = rw h
next_after-append k (b ∷ bs) rest step l h = rw l.0 (next_after-append k bs rest step l.1 h)

-- The step found for an activity is the first that holds it, and the activities enqueued next are those
-- of the step behind it: none behind the last step.
step_position :
    (o : Orchestration) (k : String) (before rest : List OrchestrationStep)
    (step : OrchestrationStep)
    → o.steps ≡ before ++ step ∷ rest
    → Lacks k before
    → has_activity k step.activities ≡ true
    → (get_step_for_activity o k ≡ ok step) × (get_next_step_activities o k ≡ first_activities rest)
unfolding get_step_for_activity get_next_step_activities
step_position o k before rest step e l h = (
  rw (
    ap (λ (s : List OrchestrationStep). find_step s k) e ∙ find_step-append k before rest step l h,
    get_step_for_activity,
  ),
  rw e (next_after-append k before rest step l h),
)
