-- ===== src/Manager/Definitions/Schema/Provided.antt =====
-- What an accepted schema promises (pmanager/core/definition_manager.go: validateActivitySchema).
use cfm.Prelude.{
  ◌≡◌, refl, sym, ap, ◌∙◌, String, Bool, true, false, ◌&&◌, ◌||◌, Option, none, some, List, [], ◌∷◌,
  ◌++◌, Map, lookup, insert, has, some_of, str_eq, eq_iff, arith, All, lookup-insert, Option-cases,
  inl, inr, Bool-cases, from_option,
}
use cfm.Json.{Value, str, Items, nil, cons, Fields, end, field, get, as_array}
use cfm.Errors.{Error, join_all-none}
use cfm.Orchestration.{Activity}
use cfm.Manager.{ActivityDefinition}
use cfm.Manager.Definitions.Schema.{
  by_id, injected, Merged, properties, merge_outputs, after, type_of, required_errors, is_empty,
  merge_dependencies, checked_inputs, activity_errors, all_errors, validate_activity_schema,
}

abbrev has_name : Fields → String → Bool
has_name end name = false
has_name (field j v fs) name = str_eq j name || has_name fs name

-- Does an activity of this definition put out the field?
abbrev outputs : String → Option ActivityDefinition → Bool
outputs name none = false
outputs name (some d) = elim (properties d.output_schema) [
  | none ↦ false
  | some fs ↦ has_name fs name
]

-- A field that the manifest injects, or that one of the dependencies puts out.
abbrev pub is_provided :
    Map Activity → Map ActivityDefinition → Map Value → List String → String → Bool
is_provided activities definitions fields ids name =
    has fields name || some_of (λ id. outputs name (lookup definitions (type_of activities id))) ids

abbrev pub every_name : (String → Bool) → Items → Bool
every_name p nil = true
every_name p (cons (str name) rest) = p name && every_name p rest
every_name p (cons v rest) = every_name p rest

abbrev pub required_names : Option ActivityDefinition → Items
required_names none = nil
required_names (some d) = from_option nil (as_array (get d.input_schema "required"))

has-merge_outputs :
    (fields : Map Value) (fs : Fields) (name : String)
    → has (merge_outputs fields fs).fields name ≡ (has fields name || has_name fs name)
unfolding merge_outputs
has-merge_outputs fields end name = ground arith
has-merge_outputs fields (field j v fs) name = elim (Bool-cases (has fields j)) [
  | inl taken ↦ rw (taken) (ground (arith, taken, eq_iff j name, has-merge_outputs fields fs name))
  | inr free ↦
      rw (free) (
        ground
          (arith, lookup-insert fields j name v, has-merge_outputs (insert fields j v) fs name))
]

required_errors-none :
    (fields : Map Value) (independent : Bool) (xs : Items)
    → required_errors fields independent xs ≡ []
    → every_name (has fields) xs ≡ true
unfolding required_errors
required_errors-none fields independent nil h = refl
required_errors-none fields independent (cons (str name) rest) h =
    ground (arith, required_errors-none fields independent rest)
required_errors-none fields independent (cons v rest) h =
    required_errors-none fields independent rest h

every_name_mono :
    (p q : String → Bool) (xs : Items)
    → ((name : String) → p name ≡ true → q name ≡ true)
    → every_name p xs ≡ true
    → every_name q xs ≡ true
every_name_mono p q nil h e = refl
every_name_mono p q (cons (str name) rest) h e = ground (arith, h name, every_name_mono p q rest h)
every_name_mono p q (cons v rest) h e = every_name_mono p q rest h e

some_injective : {A : Type 0} {a b : A} → some a ≡ some b → a ≡ b
some_injective h = ground arith

append-none : {A : Type 0} (xs ys : List A) → xs ++ ys ≡ [] → (xs ≡ []) × (ys ≡ [])
append-none [] ys h = (refl, h)
append-none (x ∷ xs) ys h = absurd (ground arith)

after-some :
    (errors : List Error) (o : Option Merged) (m : Merged)
    → after errors o ≡ some m
    → (r : Merged) × (o ≡ some r) × (m.fields ≡ r.fields)
after-some errors none m h = absurd (ground arith)
after-some errors (some r) m h =
    (r, refl, ap (λ o. elim o [ none ↦ r.fields | some x ↦ x.fields ]) (sym h))

module _ (activities : Map Activity) (definitions : Map ActivityDefinition) where
  merge_dependencies-Provided :
      (fields : Map Value) (ids : List String) (m : Merged) (name : String)
      → merge_dependencies activities definitions fields ids ≡ some m
      → has m.fields name ≡ is_provided activities definitions fields ids name
  unfolding merge_dependencies
  merge_dependencies-Provided fields [] m name h =
      ap (λ o. elim o [ none ↦ false | some x ↦ has x.fields name ]) (sym h) ∙ ground arith
  merge_dependencies-Provided fields (id ∷ ids) m name h =
      elim (Option-cases (lookup definitions (type_of activities id))) [
        | inl n ↦ absurd (ground (arith, rw (n, merge_dependencies) at h))
        | inr (d, found) ↦ elim (Option-cases (properties d.output_schema)) [
          | inl n ↦
              let rest =
                merge_dependencies-Provided fields ids m name
                  (rw (found, n, merge_dependencies) at h) in
              rw (found, n, outputs) rest
          | inr (fs, p) ↦
              let (r, merged, same) = after-some _ _ m (rw (found, p, merge_dependencies) at h) in
              let rest =
                merge_dependencies-Provided (merge_outputs fields fs).fields ids r name merged in
              rw (found, p, same, rest, outputs) (ground (arith, has-merge_outputs fields fs name))
        ]
      ]

  abbrev pub Provided : Activity → Type 0
  Provided a =
      every_name (is_provided activities definitions injected a.depends_on)
        (required_names (lookup definitions a.type))
      ≡ true

  checked_inputs-Provided :
      (a : Activity) (m : Merged) (d : Option ActivityDefinition)
      → merge_dependencies activities definitions injected a.depends_on ≡ some m
      → checked_inputs activities definitions a d m ≡ some []
      → every_name (is_provided activities definitions injected a.depends_on) (required_names d)
        ≡ true
  checked_inputs-Provided a m none merged h = refl
  checked_inputs-Provided a m (some d) merged h = elim (Bool-cases (is_empty m.errors)) [
    | inr dirty ↦
        let none_left : m.errors ≡ [] = some_injective (rw (dirty) at h) in
        absurd (ground (arith, rw (none_left) at dirty))
    | inl clean ↦
        every_name_mono (has m.fields) _ (required_names (some d))
          (λ name has_it.
            sym (merge_dependencies-Provided injected a.depends_on m name merged) ∙ has_it)
          (required_errors-none m.fields (is_empty a.depends_on) (required_names (some d))
            (append-none _ _ (some_injective (rw (clean) at h))).0)
  ]

  activity_errors-Provided :
      (a : Activity) → activity_errors activities definitions a ≡ some [] → Provided a
  unfolding activity_errors
  activity_errors-Provided a h =
      elim (Option-cases (merge_dependencies activities definitions injected a.depends_on)) [
        | inl n ↦ absurd (ground (arith, rw (n, activity_errors) at h))
        | inr (m, merged) ↦
            checked_inputs-Provided a m (lookup definitions a.type) merged
              (rw (merged, activity_errors) at h)
      ]

  all_errors-none :
      (as' : List Activity) → all_errors activities definitions as' ≡ some [] → All Provided as'
  unfolding all_errors
  all_errors-none [] h = tt
  all_errors-none (a ∷ rest) h = elim (Option-cases (activity_errors activities definitions a)) [
    | inl n ↦ absurd (ground (arith, rw (n, all_errors) at h))
    | inr (errors, first) ↦ elim (Option-cases (all_errors activities definitions rest)) [
      | inl n ↦ absurd (ground (arith, rw (first, n, all_errors) at h))
      | inr (others, second) ↦
          let (no_errors, no_others) =
            append-none errors others (some_injective (rw (first, second, all_errors) at h)) in
          (
            activity_errors-Provided a (first ∙ ap some no_errors),
            all_errors-none rest (second ∙ ap some no_others),
          )
    ]
  ]

-- Where the schemas of activities are accepted, each field that an activity's input requires is one that the
-- manifest injects, or is in the output of an activity that it depends on.
pub validate_activity_schema-Provided :
    (activities : List Activity) (definitions : Map ActivityDefinition)
    → validate_activity_schema activities definitions ≡ some none
    → All (Provided (by_id [] activities) definitions) activities
unfolding validate_activity_schema
validate_activity_schema-Provided activities definitions h =
    elim (Option-cases (all_errors (by_id [] activities) definitions activities)) [
      | inl n ↦ absurd (ground (arith, rw (n, validate_activity_schema) at h))
      | inr (errors, all) ↦ all_errors-none (by_id [] activities) definitions activities (
          all
          ∙ ap some
              (join_all-none errors (some_injective (rw (all, validate_activity_schema) at h))))
    ]
