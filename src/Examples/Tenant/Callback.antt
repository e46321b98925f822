-- ===== src/Examples/Tenant/Callback.antt =====
-- A profile that waits for an orchestration, and the responses that the callback handles for it.
use cfm.Prelude.{◌≡◌, refl, Bool, true, false, none, [], ◌∷◌, Map, lookup, insert, delete}
use cfm.Json.{get}
use cfm.Errors.{ok}
use cfm.Store.Memory.{update, find_by_id}
use cfm.Engine.Client.{OrchestrationResponse}
use cfm.Tenant.{
  disposed, ParticipantProfile, OrchestrationManifest, vpa_deploy_type, vpa_dispose_type,
  next_version,
}
use cfm.Tenant.Pending.{
  set_pending_orchestration, is_pending_orchestration, matches_pending, clear_pending,
}
use cfm.Tenant.Callback.{with_state, deploy_updater, dispose_updater, applied, handle, handle_in}
use cfm.Tenant.Callback.Applied.{Effect, deploying, success_applied_once, failure_compensated}
use cfm.Examples.Tenant.{profile_store, stores, stores-IsSound, profile}

abbrev manifest : OrchestrationManifest
manifest = record {
  id = "m-1";
  correlation_id = "p-1";
  orchestration_type = vpa_deploy_type;
  payload = [];
  compensated_manifest_id = "";
}

abbrev answer : Bool → OrchestrationResponse
answer success = record {
  id = "r-1";
  manifest_id = "m-1";
  correlation_id = "p-1";
  success = success;
  error_detail = "no";
  orchestration_type = vpa_deploy_type;
  properties = [];
  compensated_manifest_id = "";
}

abbrev compensating : OrchestrationResponse
compensating = record {
  id = "r-2";
  manifest_id = "m-1-compensation";
  correlation_id = "p-1";
  success = true;
  error_detail = "";
  orchestration_type = vpa_dispose_type;
  properties = [];
  compensated_manifest_id = "m-1";
}

abbrev waiting : ParticipantProfile
waiting = set_pending_orchestration profile manifest

waiting-takes :
    (r : OrchestrationResponse)
    → matches_pending "m-1" vpa_deploy_type r ≡ true
    → is_pending_orchestration waiting r ≡ true
unfolding is_pending_orchestration set_pending_orchestration lookup insert get
waiting-takes r h = h

abbrev db : Map ParticipantProfile
db = ("p-1", waiting) ∷ []

waiting_found : profile_store.find_by_id db "p-1" ≡ ok waiting
unfolding find_by_id lookup
waiting_found = refl

waiting-id : waiting.id ≡ "p-1"
unfolding set_pending_orchestration
waiting-id = refl

matches_answer : (b : Bool) → matches_pending "m-1" vpa_deploy_type (answer b) ≡ true
unfolding matches_pending
matches_answer b = refl

matches_compensating : matches_pending "m-1" vpa_deploy_type compensating ≡ true
unfolding matches_pending
matches_compensating = refl

abbrev after_success : Map ParticipantProfile
after_success = ("p-1", next_version (deploy_updater (clear_pending waiting) (answer true))) ∷ []

success_handled : handle (stores none) deploy_updater db (answer true) ≡ (after_success, ok tt)
unfolding handle handle_in find_by_id update is_pending_orchestration set_pending_orchestration
    insert lookup deploy_updater clear_pending delete get applied matches_pending
success_handled = refl

success_applied_once_example :
    (profile_store.find_by_id after_success "p-1"
      ≡ ok (next_version (deploy_updater (clear_pending waiting) (answer true))))
    × (handle (stores none) dispose_updater after_success compensating ≡ (after_success, ok tt))
    × Effect deploy_updater deploying waiting
        (answer true)
        (next_version (deploy_updater (clear_pending waiting) (answer true)))
success_applied_once_example =
    success_applied_once (stores none) (stores-IsSound none) deploy_updater dispose_updater db
      after_success (answer true) compensating waiting deploying waiting_found waiting-id
      (waiting-takes (answer true) (matches_answer true)) refl refl success_handled

abbrev after_failure : Map ParticipantProfile
after_failure = (handle (stores none) deploy_updater db (answer false)).0

failure_handled : handle (stores none) deploy_updater db (answer false) ≡ (after_failure, ok tt)
unfolding handle handle_in find_by_id update is_pending_orchestration set_pending_orchestration
    insert lookup deploy_updater clear_pending delete get applied matches_pending
failure_handled = refl

abbrev after_compensation : Map ParticipantProfile
after_compensation = (handle (stores none) dispose_updater after_failure compensating).0

compensation_handled :
    handle (stores none) dispose_updater after_failure compensating ≡ (after_compensation, ok tt)
unfolding handle handle_in find_by_id update is_pending_orchestration set_pending_orchestration
    insert lookup deploy_updater dispose_updater clear_pending delete get applied matches_pending
compensation_handled = refl

failure_compensated_example :
    (p' : ParticipantProfile) × (profile_store.find_by_id after_compensation "p-1" ≡ ok p')
    × (p'.error ≡ true)
    × (p'.vpas ≡ with_state disposed waiting.vpas)
failure_compensated_example =
    failure_compensated (stores none) (stores-IsSound none) db after_failure after_compensation
      (answer false) compensating waiting waiting_found waiting-id
      (waiting-takes (answer false) (matches_answer false)) refl refl
      (waiting-takes compensating matches_compensating) failure_handled compensation_handled
