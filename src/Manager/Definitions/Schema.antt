-- ===== src/Manager/Definitions/Schema.antt =====
-- validateActivitySchema (pmanager/core/definition_manager.go). `none` is the panic on an activity without definition.
pub mod Provided
pub mod Total
use cfm.Prelude.{
  String, Bool, true, false, not, ◌&&◌, Option, none, some, List, [], ◌∷◌, ◌++◌, Map, insert,
  lookup, has, from_option, if◌then◌else◌, str_eq,
}
use cfm.Json.{
  Value, str, Items, nil, cons, Fields, end, field, get, as_string, as_object, as_array, object,
}
use cfm.Errors.{Error, new_validation_error, join_all}
use cfm.Orchestration.{Activity}
use cfm.Manager.{ActivityDefinition}

-- activityMapById
unfoldable pub by_id : Map Activity → List Activity → Map Activity
by_id m [] = m
by_id m (a ∷ rest) = by_id (insert m a.id a) rest

abbrev typed : String → Value
typed type = object (field "type" (str type) end)

-- The fields that every orchestration manifest injects.
abbrev pub injected : Map Value
injected =
    ("cfm.participant.id", typed "string")
    ∷ ("cfm.vpa.data", typed "array")
    ∷ ("cfm.vpa.credentials", typed "array")
    ∷ []

-- the fields that an activity receives, and the errors on the way
pub record Merged : Type 0 where
  pub fields : Map Value
  pub errors : List Error

abbrev pub properties : Fields → Option Fields
properties schema = as_object (get schema "properties")

-- One more output, behind which others follow.
unfoldable pub merge_outputs : Map Value → Fields → Merged
merge_outputs fields end = record { fields = fields; errors = [] }
merge_outputs fields (field name v rest) =
    if has fields name
    then (let others = merge_outputs fields rest in
        record others {
          errors =
              new_validation_error "field is duplicated in multiple dependent activities"
              ∷ others.errors;
        })
    else merge_outputs (insert fields name v) rest

abbrev pub after : List Error → Option Merged → Option Merged
after errors none = none
after errors (some m) = some (record m { errors = errors ++ m.errors })

-- an activity's type; that of a missing one is empty
abbrev pub type_of : Map Activity → String → String
type_of activities id = elim (lookup activities id) [ none ↦ "" | some a ↦ a.type ]

abbrev no_list : Items
no_list = nil

abbrev type_name : Value → String
type_name v = elim (as_object (some v)) [
  | none ↦ ""
  | some fs ↦ from_option "" (as_string (get fs "type"))
]

-- Do the types of a field say different things?
abbrev pub differs : Value → Value → Bool
differs input output =
    let i = type_name input in
    let o = type_name output in not (str_eq i "") && (not (str_eq o "") && not (str_eq i o))

-- The errors on required fields.
unfoldable pub required_errors : Map Value → Bool → Items → List Error
required_errors fields independent nil = []
required_errors fields independent (cons (str name) rest) =
    let others = required_errors fields independent rest in
    if has fields name
    then others
    else if independent
    then new_validation_error "activity has required input fields but no dependencies" ∷ []
    else new_validation_error "required input field is not provided by dependent activities"
      ∷ others
required_errors fields independent (cons v rest) = required_errors fields independent rest

-- The errors on the types of fields.
unfoldable pub type_errors : Map Value → Fields → List Error
type_errors fields end = []
type_errors fields (field name v rest) =
    let others = type_errors fields rest in
    elim (lookup fields name) [
      | none ↦ others
      | some output ↦
          if differs v output
          then new_validation_error "type of input field differs" ∷ others
          else others
    ]

abbrev pub is_empty {ℓ} : {A : Type ℓ} → List A → Bool
is_empty [] = true
is_empty (x ∷ xs) = false

-- the errors of an activity whose dependencies' outputs are merged
abbrev pub input_errors : Activity → ActivityDefinition → Merged → List Error
input_errors a d m =
    if is_empty m.errors
    then required_errors m.fields (is_empty a.depends_on)
        (from_option no_list (as_array (get d.input_schema "required")))
      ++ type_errors m.fields (from_option end (properties d.input_schema))
    else m.errors

module _ (activities : Map Activity) (definitions : Map ActivityDefinition) where
  -- The loop over the dependencies of an activity.
  unfoldable pub merge_dependencies : Map Value → List String → Option Merged
  unfolding get merge_outputs
  merge_dependencies fields [] = some (record { fields = fields; errors = [] })
  merge_dependencies fields (id ∷ ids) = elim (lookup definitions (type_of activities id)) [
    | none ↦ none
    | some d ↦ elim (properties d.output_schema) [
      | none ↦ merge_dependencies fields ids
      | some outputs ↦
          let m = merge_outputs fields outputs in after m.errors (merge_dependencies m.fields ids)
    ]
  ]

  abbrev pub checked_inputs : Activity → Option ActivityDefinition → Merged → Option (List Error)
  checked_inputs a none m = if is_empty m.errors then none else some m.errors
  checked_inputs a (some d) m = some (input_errors a d m)

  -- The errors of one activity.
  unfoldable pub activity_errors : Activity → Option (List Error)
  unfolding merge_dependencies required_errors type_errors get
  activity_errors a = elim (merge_dependencies injected a.depends_on) [
    | none ↦ none
    | some m ↦ checked_inputs a (lookup definitions a.type) m
  ]

  unfoldable pub all_errors : List Activity → Option (List Error)
  unfolding activity_errors
  all_errors [] = some []
  all_errors (a ∷ rest) = elim (activity_errors a) [
    | none ↦ none
    | some errors ↦ elim (all_errors rest) [ none ↦ none | some others ↦ some (errors ++ others) ]
  ]

-- validateActivitySchema
unfoldable pub validate_activity_schema :
    List Activity → Map ActivityDefinition → Option (Option Error)
unfolding by_id all_errors join_all
validate_activity_schema activities definitions =
    elim (all_errors (by_id [] activities) definitions activities) [
      | none ↦ none
      | some errors ↦ some (join_all errors)
    ]
