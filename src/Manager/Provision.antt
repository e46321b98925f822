-- ===== src/Manager/Provision.antt =====
-- provisionManager.Start (pmanager/core/provision.go) and the dispatcher of manifests
-- (pmanager/natsprovision/handler.go). The orchestrator and the stores are interfaces.
pub mod Starting
use cfm.Prelude.{
  ℕ, String, Bool, true, false, not, ◌||◌, ◌&&◌, Option, none, some, List, [], ◌∷◌, Map,
  if◌then◌else◌, str_eq,
}
use Prim.Native.String.{◌++◌ as str_append}
use cfm.Json.{Value}
use cfm.Errors.{
  Error, wrapped, joined, bad_request, bad_request_by, general_recoverable_by, system_error_by,
  general_recoverable, err_conflict, is_not_found, is_recoverable, Result, ok, err,
  new_fatal_wrapped_error, new_recoverable_wrapped_error,
}
use cfm.Orchestration.{is_initialized, Orchestration}
use cfm.Orchestration.Instantiate.{instantiate_orchestration}
use cfm.Engine.Client.{OrchestrationResponse}
use cfm.Manager.{OrchestrationDefinition, Manifest}

-- The parts that Start is built from: the definition store, the orchestrator, the transactions and the clock.
pub record Parts : Type 1 where
  pub World : Type 0
  pub find_definition : World → String → Result OrchestrationDefinition
  pub get_orchestration : World → String → World × Result (Option Orchestration)
  -- Execute: the error, and the orchestration as the call leaves it
  pub execute : World → Orchestration → World × (Option Error × Orchestration)
  -- the time at which an orchestration is instantiated
  pub now : ℕ
  pub commit : {A : Type 0} → World → World × Result A → World × Result A

-- executionError
unfoldable pub execution_error : Error → Error
unfolding is_recoverable new_recoverable_wrapped_error new_fatal_wrapped_error
execution_error e =
    if is_recoverable e
    then new_recoverable_wrapped_error (some e) "error executing orchestration"
    else new_fatal_wrapped_error (some e) "error executing orchestration"

-- errors.As for a ClientError: the message of the first one of the chain
unfoldable pub client_message : Error → Option String
client_message (bad_request m) = some m
client_message (bad_request_by m e) = some m
client_message (wrapped m e) = client_message e
client_message (joined a b) =
    let second = client_message b in elim (client_message a) [ some m ↦ some m | none ↦ second ]
client_message (general_recoverable_by m e) = client_message e
client_message (system_error_by m e) = client_message e
client_message _ = none

-- startErrorDetail: only a client error's message is passed on; others are named by an ID.
unfoldable pub start_error_detail : Error → String → String
unfolding client_message
start_error_detail e id = elim (client_message e) [
  | some m ↦ m
  | none ↦ str_append "orchestration could not be started [" (str_append id "]")
]

abbrev pub same_request : Orchestration → Manifest → Bool
same_request o m =
    str_eq o.orchestration_type m.orchestration_type && str_eq o.correlation_id m.correlation_id

module _ (p : Parts) where
  open p use {World}

  abbrev pub after_execute : World × (Option Error × Orchestration) → World × Result Orchestration
  after_execute (w, (none, o)) = (w, ok o)
  after_execute (w, (some e, o)) = (w, err (execution_error e))

  abbrev pub conflict : Error
  conflict =
      wrapped "orchestration already exists with a different type or correlation ID" err_conflict

  -- The manifest's ID is taken.
  unfoldable pub resume_existing : World → Manifest → Orchestration → World × Result Orchestration
  unfolding execution_error
  resume_existing w m o =
      if same_request o m
      then (if is_initialized o.state then after_execute (p.execute w o) else (w, ok o))
      else (w, err conflict)

  abbrev compensates : Manifest → Orchestration → Orchestration
  compensates m o = record o { compensated_orchestration_id = m.compensated_manifest_id }

  unfoldable pub start_new :
      World → Manifest → OrchestrationDefinition → World × Result Orchestration
  unfolding execution_error new_fatal_wrapped_error instantiate_orchestration
  start_new w m d =
      elim (instantiate_orchestration p.now m.id m.correlation_id m.orchestration_type d.type
        d.activities m.payload) [
          | err e ↦ (w, err (new_fatal_wrapped_error (some e) "error instantiating orchestration"))
          | ok o ↦ after_execute (p.execute w (compensates m o))
        ]

  abbrev pub after_lookup :
      Manifest
      → OrchestrationDefinition
      → World × Result (Option Orchestration)
      → World × Result Orchestration
  after_lookup m d (w, err e) =
      (w, err (new_fatal_wrapped_error (some e) "error performing de-duplication"))
  after_lookup m d (w, ok (some o)) = resume_existing w m o
  after_lookup m d (w, ok none) = start_new w m d

  -- The callback that Start executes in a transaction.
  unfoldable pub start_in : World → Manifest → World × Result Orchestration
  unfolding resume_existing start_new is_not_found new_fatal_wrapped_error
  start_in w m = elim (p.find_definition w m.orchestration_type) [
    | err e ↦
        if is_not_found e
        then (w, err (bad_request "orchestration type not found"))
        else (w, err (new_fatal_wrapped_error (some e) "unable to find orchestration definition"))
    | ok d ↦ after_lookup m d (p.get_orchestration w m.id)
  ]

  unfoldable pub start : World → Manifest → World × Result Orchestration
  unfolding start_in
  start w m =
      if str_eq m.id ""
      then (w, err (bad_request "Missing required field: id"))
      else if str_eq m.orchestration_type ""
      then (w, err (bad_request "Missing required field: orchestrationType"))
      else p.commit w (start_in w m)

  -- The dispatcher of natsProvisionHandler: a start that cannot be retried is answered.
  module _ (publish : World → OrchestrationResponse → World × Option Error)
      (new_id : World → String) (detail_id : World → String) where
    unfoldable pub start_response : World → Manifest → Error → OrchestrationResponse
    unfolding start_error_detail
    start_response w m e = record {
      id = new_id w;
      manifest_id = m.id;
      correlation_id = m.correlation_id;
      success = false;
      error_detail = start_error_detail e (detail_id w);
      orchestration_type = m.orchestration_type;
      properties = [];
      compensated_manifest_id = "";
    }

    abbrev pub after_answer : World × Option Error → World × Option Error
    after_answer (w, none) = (w, none)
    after_answer (w, some e) = (w, some (general_recoverable "failed to publish response"))

    abbrev pub after_start : Manifest → World × Result Orchestration → World × Option Error
    after_start m (w, ok _) = (w, none)
    after_start m (w, err e) =
        if is_recoverable e then (w, some e) else after_answer (publish w (start_response w m e))

    unfoldable pub dispatch_manifest : World → Manifest → World × Option Error
    unfolding start is_recoverable start_response
    dispatch_manifest w m = after_start m (start w m)
