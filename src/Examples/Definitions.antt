-- ===== src/Examples/Definitions.antt =====
-- Samples for the definitions of activities and orchestrations.
use cfm.Prelude.{
  ◌≡◌, refl, true, String, Bool, false, Option, none, some, List, [], ◌∷◌, Map, All, insert, lookup,
  str_eq, is_some,
}
use cfm.Json.{str, array, object, nil, cons, Fields, end, field}
use cfm.Errors.{Error, ok}
use cfm.Orchestration.{Activity}
use cfm.Manager.{OrchestrationDefinition, ActivityDefinition}
use cfm.Manager.Definitions.{
  create_orchestration_definition, create_activity_definition, delete_activity_definition,
  deploy_type,
}
use cfm.Manager.Definitions.Schema.{by_id, validate_activity_schema}
use cfm.Manager.Definitions.Schema.Provided.{Provided, validate_activity_schema-Provided}
use cfm.Manager.Definitions.Created.{create_orchestration_definition-some}
use cfm.Manager.Definitions.Memory.{Memory, new_definition_store}
use cfm.Manager.Definitions.Memory.Defined.{Closed}
use cfm.Manager.Definitions.Memory.Closed.{store}
use cfm.Manager.Definitions.Memory.Reachable.{
  start, orchestration_created, activity_created, activity_deleted, reachable-Closed,
}

abbrev property : String → String → Fields → Fields
property name type = field name (object (field "type" (str type) end))

abbrev creates_key : ActivityDefinition
creates_key = record {
  type = "create-key";
  input_schema = end;
  output_schema = field "properties" (object (property "key" "string" end)) end;
}

abbrev uses_key : ActivityDefinition
uses_key = record {
  type = "use-key";
  input_schema =
      field "required" (array (cons (str "key") (cons (str "cfm.participant.id") nil)))
        (field "properties" (object (property "key" "string" end)) end);
  output_schema = end;
}

abbrev first : Activity
first = record { id = "a"; type = "create-key"; discriminator = ""; depends_on = [] }

abbrev second : Activity
second = record { id = "b"; type = "use-key"; discriminator = ""; depends_on = "a" ∷ [] }

abbrev activities : List Activity
activities = first ∷ second ∷ []

abbrev definitions : Map ActivityDefinition
definitions = ("create-key", creates_key) ∷ ("use-key", uses_key) ∷ []

accepted : validate_activity_schema activities definitions ≡ some none
unfolding validate_activity_schema lookup insert
accepted = refl

validate_activity_schema-Provided_example :
    All (Provided (by_id [] activities) definitions) activities
validate_activity_schema-Provided_example =
    validate_activity_schema-Provided activities definitions accepted

-- A dependency that is not the ID of an activity is a panic.
unknown_dependency : validate_activity_schema (second ∷ []) definitions ≡ none
unfolding validate_activity_schema lookup insert
unknown_dependency = refl

abbrev is_of : OrchestrationDefinition → String → Bool
is_of d template = str_eq d.template_ref template

abbrev no_entry : String → Option Error × Bool
no_entry id = (none, false)

abbrev defined : Memory
defined =
    (create_activity_definition (store is_of no_entry)
      (create_activity_definition (store is_of no_entry) new_definition_store creates_key).0
      uses_key).0

abbrev deployment : OrchestrationDefinition
deployment = record { type = deploy_type; activities = activities; template_ref = "t" }

abbrev deployed : Memory
deployed = record defined { orchestrations = (deploy_type, deployment) ∷ [] }

deployment_created :
    create_orchestration_definition (store is_of no_entry) defined deployment
    ≡ some (deployed, ok deployment)
unfolding create_orchestration_definition lookup insert
deployment_created = refl

create_orchestration_definition-some_example :
    is_some (create_orchestration_definition (store is_of no_entry) defined deployment) ≡ true
create_orchestration_definition-some_example =
    create_orchestration_definition-some (store is_of no_entry) defined deployment refl

abbrev kept : Memory
kept = (delete_activity_definition (store is_of no_entry) deployed "create-key").0

reachable-Closed_example : Closed kept
reachable-Closed_example = reachable-Closed is_of no_entry kept (
    activity_deleted "create-key" (
      orchestration_created {m = defined} {r = (deployed, ok deployment)} deployment
        (activity_created uses_key (activity_created creates_key start)) deployment_created))
