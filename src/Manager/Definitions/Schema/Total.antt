-- ===== src/Manager/Definitions/Schema/Total.antt =====
-- When validateActivitySchema does not panic (pmanager/core/definition_manager.go).
use cfm.Prelude.{
  ◌≡◌, refl, String, Bool, true, ◌||◌, Option, none, some, List, [], ◌∷◌, Map, lookup, insert, has,
  is_some, every, arith, lookup-insert, Option-cases, inl, inr,
}
use cfm.Json.{Value}
use cfm.Errors.{Error}
use cfm.Orchestration.{Activity}
use cfm.Orchestration.Instantiate.Graphs.{find_activity, all_known}
use cfm.Manager.{ActivityDefinition}
use cfm.Manager.Definitions.Schema.{
  by_id, injected, Merged, properties, merge_outputs, after, type_of, merge_dependencies,
  checked_inputs, activity_errors, all_errors, validate_activity_schema,
}

by_id-every :
    (p : Activity → Bool) (m : Map Activity) (as' : List Activity)
    → every p as' ≡ true
    → ((id : String) (a : Activity) → lookup m id ≡ some a → p a ≡ true)
    → (id : String) (a : Activity) → lookup (by_id m as') id ≡ some a
    → p a ≡ true
unfolding by_id
by_id-every p m [] h old id a found = old id a found
by_id-every p m (b ∷ rest) h old id a found =
    by_id-every p (insert m b.id b) rest (ground arith)
      (λ id' a' found'. ground (arith, lookup-insert m b.id id' b, old id' a')) id a found

has-by_id :
    (m : Map Activity) (as' : List Activity) (id : String)
    → has (by_id m as') id ≡ (has m id || is_some (find_activity as' id))
unfolding by_id
has-by_id m [] id = ground arith
has-by_id m (a ∷ rest) id =
    ground (arith, lookup-insert m a.id id a, has-by_id (insert m a.id a) rest id)

is_some-after : (errors : List Error) (o : Option Merged) → is_some (after errors o) ≡ is_some o
is_some-after errors none = refl
is_some-after errors (some m) = refl

module _ (activities : Map Activity) (definitions : Map ActivityDefinition) where
  -- Do all of these have a definition?
  abbrev pub all_typed : List String → Bool
  all_typed = every (λ id. has definitions (type_of activities id))

  merge_dependencies-some :
      (fields : Map Value) (ids : List String)
      → all_typed ids ≡ true
      → is_some (merge_dependencies activities definitions fields ids) ≡ true
  unfolding merge_dependencies
  merge_dependencies-some fields [] h = refl
  merge_dependencies-some fields (id ∷ ids) h =
      elim (Option-cases (lookup definitions (type_of activities id))) [
        | inl n ↦ absurd (ground (arith, n))
        | inr (d, found) ↦ elim (Option-cases (properties d.output_schema)) [
          | inl n ↦
              rw (merge_dependencies, found, n) (merge_dependencies-some fields ids (ground arith))
          | inr (fs, p) ↦
              let m = merge_outputs fields fs in
              rw
                (
                  merge_dependencies,
                  found,
                  p,
                  is_some-after m.errors (merge_dependencies activities definitions m.fields ids),
                )
                (merge_dependencies-some m.fields ids (ground arith))
        ]
      ]

  checked_inputs-some :
      (a : Activity) (d : Option ActivityDefinition) (m : Merged)
      → is_some d ≡ true
      → is_some (checked_inputs activities definitions a d m) ≡ true
  checked_inputs-some a none m h = cc
  checked_inputs-some a (some d) m h = refl

  activity_errors-some :
      (a : Activity)
      → has definitions a.type ≡ true
      → all_typed a.depends_on ≡ true
      → is_some (activity_errors activities definitions a) ≡ true
  unfolding activity_errors
  activity_errors-some a typed known =
      elim (Option-cases (merge_dependencies activities definitions injected a.depends_on)) [
        | inl n ↦ absurd (ground (arith, n, merge_dependencies-some injected a.depends_on known))
        | inr (m, merged) ↦
            rw (activity_errors, merged) (checked_inputs-some a (lookup definitions a.type) m typed)
      ]

  pub all_errors-some :
      (as' : List Activity)
      → every (λ a. has definitions a.type) as' ≡ true
      → every (λ a. all_typed a.depends_on) as' ≡ true
      → is_some (all_errors activities definitions as') ≡ true
  unfolding all_errors
  all_errors-some [] typed known = refl
  all_errors-some (a ∷ rest) typed known =
      ground (arith, activity_errors-some a, all_errors-some rest)

nothing_found : (id : String) (a : Activity) → lookup [] id ≡ some a → ⊥
unfolding lookup
nothing_found id a h = ground arith

-- Known dependencies of activities that have definitions.
known-all_typed :
    (given : List Activity) (definitions : Map ActivityDefinition) (ids : List String)
    → every (λ a. has definitions a.type) given ≡ true
    → every (λ d. is_some (find_activity given d)) ids ≡ true
    → all_typed (by_id [] given) definitions ids ≡ true
known-all_typed given definitions [] typed h = refl
known-all_typed given definitions (id ∷ ids) typed h =
    elim (Option-cases (lookup (by_id [] given) id)) [
      | inl n ↦ absurd (ground (arith, n, has-by_id [] given id))
      | inr (a, found) ↦
          let first : has definitions a.type ≡ true =
            by_id-every (λ x. has definitions x.type) [] given typed
              (λ id' a' f. absurd (nothing_found id' a' f)) id a found in
          ground (arith, found, first, known-all_typed given definitions ids typed)
    ]

known-every :
    (given : List Activity) (definitions : Map ActivityDefinition) (as' : List Activity)
    → every (λ a. has definitions a.type) given ≡ true
    → all_known given as' ≡ true
    → every (λ a. all_typed (by_id [] given) definitions a.depends_on) as' ≡ true
known-every given definitions [] typed h = refl
known-every given definitions (a ∷ rest) typed h = ground (
  arith,
  known-all_typed given definitions a.depends_on typed,
  known-every given definitions rest typed,
)

pub validate_activity_schema-some :
    (activities : List Activity) (definitions : Map ActivityDefinition)
    → every (λ a. has definitions a.type) activities ≡ true
    → all_known activities activities ≡ true
    → is_some (validate_activity_schema activities definitions) ≡ true
unfolding validate_activity_schema
validate_activity_schema-some activities definitions typed known =
    let total =
      all_errors-some (by_id [] activities) definitions activities typed
        (known-every activities definitions activities typed known) in
    elim (Option-cases (all_errors (by_id [] activities) definitions activities)) [
      | inl n ↦ absurd (ground (arith, n, total))
      | inr (errors, all) ↦ rw (validate_activity_schema, all) refl
    ]
