-- ===== src/Orchestration/Instantiate/Staged.antt =====
-- The steps that InstantiateOrchestration makes of the levels (pmanager/api/types.go).
use cfm.Prelude.{
  contains-append, ◌<◌, ◌≡◌, refl, String, true, some, List, [], ◌∷◌, ◌++◌, arith, occ, bit,
  contains, has, eq_iff, eq_refl, lookup, is_some, map, inl, inr, Option-cases, All, length, ◌∙◌,
  sym, ap, subst,
}
use cfm.Dag.{Graph}
use cfm.Dag.Walks.{Edge}
use cfm.Dag.Levels.{flat}
use cfm.Dag.Reversed.{Ready}
use cfm.Orchestration.{Activity, OrchestrationStep}
use cfm.Orchestration.Instantiate.{values, to_step}
use cfm.Dag.Edges.{value_of, vertex_value}
use cfm.Orchestration.Instantiate.Graphs.{find_activity, depends}

abbrev pub ids_of : List Activity → List String
ids_of as' = map (λ a. a.id) as'

abbrev pub step_ids : List OrchestrationStep → List String
step_ids [] = []
step_ids (s ∷ ss) = ids_of s.activities ++ step_ids ss

-- Each step has an activity, and what the activities of a step depend on stands in the steps before it.
abbrev pub StepsReady : List Activity → List String → List OrchestrationStep → Type 0
StepsReady given before [] = Unit
StepsReady given before (s ∷ ss) =
    (0 < length s.activities)
    × All
        (λ a.
          (find_activity given a.id ≡ some a)
          × ((d : String) → depends given a.id d ≡ true → 0 < occ d before))
        s.activities
    × StepsReady given (before ++ ids_of s.activities) ss

-- The steps hold an activity for each ID that was given, once, and each activity is the first one given with its ID.
pub record Staged (given : List Activity) (steps : List OrchestrationStep) : Type 0 where
  pub once : (k : String) → occ k (step_ids steps) ≡ bit (is_some (find_activity given k))
  pub ready : StepsReady given [] steps

length-ids_of : (as' : List Activity) → length (ids_of as') ≡ length as'
length-ids_of [] = refl
length-ids_of (a ∷ as') = omega (arith, length-ids_of as')

find_activity-id :
    (as' : List Activity) (k : String) (a : Activity) → find_activity as' k ≡ some a → a.id ≡ k
find_activity-id [] k a h = cc
find_activity-id (b ∷ bs) k a h = ground (arith, eq_iff b.id k, find_activity-id bs k a)

module _ (g : Graph Activity) (given : List Activity)
    (represents : (k : String) → value_of g k ≡ find_activity given k) where
  -- The value behind a pointer, for a vertex of the graph.
  values-found :
      (k : String) (ks : List String)
      → has g.vertices k ≡ true
      → (a : Activity) × (find_activity given k ≡ some a) × (values g (k ∷ ks) ≡ a ∷ values g ks)
  unfolding values
  values-found k ks there = elim (Option-cases (lookup g.vertices k)) [
    | inl missing ↦ absurd (ground (arith, missing))
    | inr (u, found) ↦
        (u.value, sym (represents k) ∙ ap vertex_value found, rw (values, found) refl)
  ]

  ids_of-values :
      (l : List String)
      → ((k : String) → contains k l ≡ true → has g.vertices k ≡ true)
      → ids_of (values g l) ≡ l
  unfolding values
  ids_of-values [] there = refl
  ids_of-values (k ∷ ks) there =
      let (a, found, eq) = values-found k ks (there k (ground (arith, eq_refl k))) in
      ap ids_of eq
      ∙ rw (find_activity-id given k a found, ids_of-values ks (λ j in_ks. there j (ground arith)))
          refl

  values-All :
      (P : String → Type 0) (l : List String)
      → ((k : String) → contains k l ≡ true → has g.vertices k ≡ true)
      → ((k : String) → contains k l ≡ true → P k)
      → All (λ a. (find_activity given a.id ≡ some a) × P a.id) (values g l)
  unfolding values
  values-All P [] there h = tt
  values-All P (k ∷ ks) there h =
      let (a, found, eq) = values-found k ks (there k (ground (arith, eq_refl k))) in
      let same : k ≡ a.id = sym (find_activity-id given k a found) in
      subst (All (λ b. (find_activity given b.id ≡ some b) × P b.id)) (sym eq) (
        (
          subst (λ j. find_activity given j ≡ some a) same found,
          subst P same (h k (ground (arith, eq_refl k))),
        ),
        values-All P ks (λ j in_ks. there j (ground arith)) (λ j in_ks. h j (ground arith)),
      )

  pub Ready-StepsReady :
      (before : List String) (ls : List (List String))
      → Ready g before ls
      → ((u v : String) → depends given u v ≡ true → Edge g u v)
      → ((k : String) → contains k (flat ls) ≡ true → has g.vertices k ≡ true)
      → StepsReady given before (map (to_step g) ls)
  Ready-StepsReady before [] h edges there = tt
  Ready-StepsReady before (l ∷ ls) h edges there =
      let in_level : (k : String) → contains k l ≡ true → has g.vertices k ≡ true =
        λ k in_l. there k (ground (arith, contains-append k l (flat ls), in_l)) in
      let ids : ids_of (values g l) ≡ l = ids_of-values l in_level in
      (
        omega (arith, length-ids_of (values g l), ap length ids, h.1),
        values-All (λ u. (d : String) → depends given u d ≡ true → 0 < occ d before) l in_level
            (λ u in_l d dep. h.0 u d in_l (edges u d dep)),
        subst (λ js. StepsReady given (before ++ js) (map (to_step g) ls)) (sym ids)
            (Ready-StepsReady (before ++ l) ls h.2 edges
              (λ k in_ls. there k (ground (arith, contains-append k l (flat ls), in_ls)))),
      )

  pub step_ids-steps :
      (ls : List (List String))
      → ((k : String) → contains k (flat ls) ≡ true → has g.vertices k ≡ true)
      → step_ids (map (to_step g) ls) ≡ flat ls
  step_ids-steps [] there = refl
  step_ids-steps (l ∷ ls) there =
      rw
        (
          ids_of-values l (λ k in_l. there k (ground (arith, contains-append k l (flat ls), in_l))),
          step_ids-steps ls
              (λ k in_ls. there k (ground (arith, contains-append k l (flat ls), in_ls))),
        )
        refl
