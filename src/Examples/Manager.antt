-- ===== src/Examples/Manager.antt =====
-- Samples for the Provision Manager: one definition, no orchestration or one, and an index in memory.
use cfm.Prelude.{ℕ, suc, ◌≡◌, refl, String, true, Option, none, some, [], ◌∷◌, Map, lookup, insert}
use cfm.Errors.{Error, err_not_found, is_not_found, in_chain, Result, ok, err}
use cfm.Store.Memory.{in_memory_store, create, find_by_id}
use cfm.Store.Memory.Laws.{in_memory_store-IsLawful}
use cfm.Nats.Retry.{acked}
use cfm.Orchestration.{errored, Orchestration}
use cfm.Engine.Client.{OrchestrationResponse}
use cfm.Manager.{OrchestrationDefinition, Manifest}
use cfm.Manager.Provision.{same_request, execution_error, conflict, start_in, dispatch_manifest}
use cfm.Manager.Provision as provision
use cfm.Manager.Provision.Starting.{Outcome, dispatch_manifest-Outcome}
use cfm.Manager.Watcher.{
  OrchestrationEntry, next_version, IsSound, convert_to_entry, on_message, index_in, is_stale,
}
use cfm.Manager.Watcher as watcher
use cfm.Manager.Watcher.Indexed.{IsFinal, ended-IsFinal, failure_missed}

abbrev deploy_type : String
deploy_type = "cfm.orchestration.vpa.deploy"

abbrev definition : OrchestrationDefinition
definition = record { type = "d-1"; activities = []; template_ref = "template" }

abbrev manifest : Manifest
manifest = record {
  id = "o-1";
  correlation_id = "p-1";
  orchestration_type = deploy_type;
  payload = [];
  compensated_manifest_id = "";
}

abbrev orchestration : Orchestration
orchestration = record {
  id = "o-1";
  correlation_id = "p-1";
  definition_id = "d-1";
  state = errored;
  state_timestamp = 3;
  created_timestamp = 1;
  orchestration_type = deploy_type;
  steps = [];
  processing_data = [];
  output_data = [];
  completed = [];
  engine_state = record { trace_context = ""; attempts = []; retries = []; error = [] };
  origin_trace_context = none;
  compensated_orchestration_id = "";
}

-- The world counts the published responses.
abbrev starting : provision.Parts
starting = record {
  World = ℕ;
  find_definition = λ w t. ok definition;
  get_orchestration = λ w id. (w, ok (some orchestration));
  execute = λ w o. (w, (none, o));
  now = 1;
  commit = λ w x. x;
}

abbrev other_request : Manifest
other_request = record manifest { correlation_id = "p-2" }

abbrev publish : ℕ → OrchestrationResponse → ℕ × Option Error
publish w r = (suc w, none)

dispatch_manifest-Outcome_example :
    Outcome starting publish
      (λ w. "r-1")
      (λ e. "no")
      0
      other_request
      (dispatch_manifest starting publish (λ w. "r-1") (λ e. "no") 0 other_request)
dispatch_manifest-Outcome_example =
    dispatch_manifest-Outcome starting publish (λ w. "r-1") (λ e. "no") 0 other_request

abbrev entry_id : OrchestrationEntry → String
entry_id e = e.id

abbrev exact : OrchestrationEntry → Result OrchestrationEntry
exact e = ok e

abbrev Index : Type 0
Index = Map OrchestrationEntry

abbrev watching : watcher.Parts
watching = record {
  World = Index;
  index = in_memory_store entry_id next_version exact;
  commit = λ w x. x;
  start = λ w m. (w, ok orchestration);
  definitions_of_type = λ w t. ok (definition ∷ []);
  definitions_of_template = λ w t o. ok (definition ∷ []);
}

watching-IsSound : IsSound watching
watching-IsSound = record {
  index-IsLawful = in_memory_store-IsLawful entry_id next_version exact (λ e. refl) (λ e. refl);
  committed = λ w x w' a h. h;
  starting = λ w m k. refl;
}

abbrev indexed : Index
indexed = ("o-1", convert_to_entry orchestration) ∷ []

first_seen : on_message watching [] (ok orchestration) ≡ (indexed, acked ∷ [])
unfolding on_message find_by_id create convert_to_entry is_not_found in_chain lookup insert
first_seen = refl

nothing_indexed : find_by_id entry_id next_version exact [] "o-1" ≡ err err_not_found
unfolding find_by_id lookup
nothing_indexed = refl

not_found : is_not_found err_not_found ≡ true
unfolding is_not_found
not_found = refl

ended-IsFinal_example : IsFinal watching watching-IsSound indexed "o-1"
ended-IsFinal_example =
    ended-IsFinal watching watching-IsSound [] indexed orchestration refl first_seen

failure_missed_example :
    ((created : OrchestrationEntry) × (create entry_id next_version exact []
          (convert_to_entry orchestration)
        ≡ (indexed, ok created)))
    × IsFinal watching watching-IsSound indexed "o-1"
failure_missed_example =
    failure_missed watching watching-IsSound [] indexed orchestration err_not_found nothing_indexed
      not_found refl first_seen
