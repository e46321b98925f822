-- ===== src/Orchestration/Completions.antt =====
-- The order in which a step's parallel activities complete (pmanager/api/types.go).
use cfm.Prelude.{
  ◌≡◌, refl, ap, String, Bool, true, false, not, ◌||◌, some, List, [], ◌∷◌, All, contains, insert,
  has, lookup-insert, eq_iff, str_eq, arith, Map,
}
use cfm.Errors.{Result, ok}
use cfm.Orchestration.{
  Activity, OrchestrationStep, Orchestration, has_activity, get_step_for_activity, others_completed,
  find_step, can_proceed_to_next_step,
}

-- o.Completed[id] = struct{}{}
abbrev pub complete : Orchestration → String → Orchestration
complete o k = record o { completed = insert o.completed k tt }

-- The activities of `ks` complete one after the other; the answers that they get.
unfoldable pub completion_answers : Orchestration → List String → List (Result Bool)
completion_answers o [] = []
completion_answers o (k ∷ ks) =
    can_proceed_to_next_step (complete o k) k ∷ completion_answers (complete o k) ks

-- All answers but the last are `no`, and the last is `yes`.
abbrev pub OnlyLast : List (Result Bool) → Type 0
OnlyLast [] = ⊥
OnlyLast (r ∷ []) = r ≡ ok true
OnlyLast (r ∷ (s ∷ rs)) = (r ≡ ok false) × OnlyLast (s ∷ rs)

-- No name stands twice.
abbrev pub Distinct : List String → Type 0
Distinct [] = Unit
Distinct (k ∷ ks) = (contains k ks ≡ false) × Distinct ks

-- Of these activities exactly those of `ks` are not completed yet.
abbrev pub Awaits : Map (Unit {0}) → List Activity → List String → Type 0
Awaits done acts ks = All (λ a. has done a.id ≡ not (contains a.id ks)) acts

has-insert : (m : Map (Unit {0})) (k j : String) → has (insert m k tt) j ≡ (str_eq k j || has m j)
has-insert m k j = rw (lookup-insert m k j tt) (ground arith)

Awaits-insert :
    (done : Map (Unit {0})) (k : String) (ks : List String) (acts : List Activity)
    → contains k ks ≡ false
    → Awaits done acts (k ∷ ks)
    → Awaits (insert done k tt) acts ks
Awaits-insert done k ks [] d w = tt
Awaits-insert done k ks (a ∷ as') d w =
    (rw (has-insert done k a.id) (ground (arith, eq_iff k a.id)), Awaits-insert done k ks as' d w.1)

-- With nothing left to complete, the others are completed.
others_completed-last :
    (done : Map (Unit {0})) (k : String) (acts : List Activity)
    → Awaits done acts []
    → others_completed done k acts ≡ true
unfolding others_completed
others_completed-last done k [] w = refl
others_completed-last done k (a ∷ as') w = ground (arith, others_completed-last done k as' w.1)

-- An activity of the step that is still to complete holds the step up.
others_completed-waits :
    (done : Map (Unit {0})) (k j : String) (ks : List String) (acts : List Activity)
    → str_eq k j ≡ false
    → has_activity j acts ≡ true
    → Awaits done acts (j ∷ ks)
    → others_completed done k acts ≡ false
unfolding others_completed
others_completed-waits done k j ks [] n h w = cc
others_completed-waits done k j ks (a ∷ as') n h w = ground (
  arith,
  others_completed-waits done k j ks as',
  eq_iff a.id j,
  eq_iff a.id k,
  eq_iff j a.id,
  eq_iff k j,
)

complete-find_step :
    (o : Orchestration) (k : String) (step : OrchestrationStep)
    → find_step o.steps k ≡ some step
    → can_proceed_to_next_step (complete o k) k
      ≡ ok (others_completed (insert o.completed k tt) k step.activities)
unfolding can_proceed_to_next_step get_step_for_activity
complete-find_step o k step e = rw (e, can_proceed_to_next_step)

-- When the activities of a step that are still to complete are marked completed one after the other, in
-- any order, the answer for each of them but the last is that the orchestration cannot proceed to its next
-- step, and for the last that it can.
pub completion_answers-OnlyLast :
    (o : Orchestration) (step : OrchestrationStep) (k : String) (ks : List String)
    → All (λ j. find_step o.steps j ≡ some step) (k ∷ ks)
    → All (λ j. has_activity j step.activities ≡ true) (k ∷ ks)
    → Distinct (k ∷ ks)
    → Awaits o.completed step.activities (k ∷ ks)
    → OnlyLast (completion_answers o (k ∷ ks))
unfolding completion_answers
completion_answers-OnlyLast o step k [] found here d w = rw (complete-find_step o k step found.0) (
    ap ok (
      others_completed-last (insert o.completed k tt) k step.activities
        (Awaits-insert o.completed k [] step.activities d.0 w)))
completion_answers-OnlyLast o step k (j ∷ ks) found here d w = (
  rw (complete-find_step o k step found.0) (
      ap ok (
        others_completed-waits (insert o.completed k tt) k j ks step.activities
          (ground (arith, eq_iff k j, eq_iff j k)) here.1.0
          (Awaits-insert o.completed k (j ∷ ks) step.activities d.0 w))),
  completion_answers-OnlyLast (complete o k) step j ks found.1 here.1 d.1
      (Awaits-insert o.completed k (j ∷ ks) step.activities d.0 w),
)
