-- ===== src/Examples/Tenant/Participants.antt =====
-- A deployment and a disposal, sent and not sent.
use cfm.Prelude.{
  ℕ, ◌≡◌, refl, ◌↔◌, String, true, false, Option, none, some, [], ◌∷◌, Map, leb, if◌then◌else◌,
  lookup, insert, delete,
}
use cfm.Json.{str, get}
use cfm.Errors.{Error, plain, wrapped, Result, ok, err, err_not_found}
use cfm.Store.Memory.{create, update, remove, find_by_id}
use cfm.Engine.Client.{OrchestrationResponse}
use cfm.Tenant.{
  pending, ParticipantProfile, VirtualParticipantAgent, OrchestrationManifest, next_version,
}
use cfm.Tenant.Access.{tenant_access_from_context, allows, check_access}
use cfm.Tenant.Pending.{
  set_pending_orchestration, is_pending_orchestration, matches_pending, clear_pending, Answers,
}
use cfm.Tenant.Generation.{
  Deployment, default_cell_selector, generate, generate_vpa, generate_credential_specs,
}
use cfm.Tenant.Participants.{
  find_profile, lock_references, get_filtered_profiles, lock_cells, lock_dataspaces,
}
use cfm.Tenant.Participants.Deploy.{
  deploy_manifest, deploy_in, prepare_deployment, delete_in, deploy_profile,
}
use cfm.Tenant.Participants.Deploy.Sending.{Deployable, deploy_profile-sent, deploy_profile-unsent}
use cfm.Tenant.Participants.Dispose.{
  dispose_manifest, to_dispose, dispose_in, prepare_disposal, dispose_profile, revert_dispose,
  revert_in,
}
use cfm.Tenant.Participants.Dispose.Restored.{Restored}
use cfm.Tenant.Participants.Dispose.Reverting.{Disposable, dispose_in-ok, dispose_profile-reverted}
use cfm.Examples.Tenant.{
  profile_store, dataspace, stores, stores-IsSound, profile, alice, deployed_db,
}

abbrev uuid : ℕ → String
uuid n = if leb n 4 then "u-4" else "u-5"

abbrev request : Deployment
request = record {
  identifier = "did:web:q";
  dataspace_profile_ids = [];
  participant_roles = [];
  vpa_properties = [];
  properties = [];
}

abbrev deployment : Map ParticipantProfile × Result (ParticipantProfile × OrchestrationManifest)
deployment = deploy_in (stores none) default_cell_selector uuid 9 [] alice "t-1" request

abbrev new_vpa : String → VirtualParticipantAgent
new_vpa type = record {
  id = "u-4";
  version = 0;
  state = pending;
  state_timestamp = 9;
  type = type;
  cell_id = "c-1";
  external_cell_id = "x-1";
  properties = [];
}

abbrev new_profile : ParticipantProfile
new_profile = record {
  id = "u-4";
  version = 0;
  identifier = "did:web:q";
  tenant_id = "t-1";
  owner = "alice";
  dataspace_profile_ids = "s-1" ∷ [];
  participant_roles = [];
  vpas =
      new_vpa "cfm.connector"
      ∷ new_vpa "cfm.credentialservice"
      ∷ new_vpa "cfm.dataplane"
      ∷ new_vpa "cfm.issuer"
      ∷ [];
  properties = [];
  error = false;
  error_detail = "";
}

abbrev new_manifest : OrchestrationManifest
new_manifest =
    deploy_manifest (stores none) default_cell_selector uuid 9 new_profile (dataspace ∷ [])

abbrev new_waiting : ParticipantProfile
new_waiting = set_pending_orchestration new_profile new_manifest

abbrev created_db : Map ParticipantProfile
created_db = ("u-4", new_waiting) ∷ []

deployment_committed :
    (outage : Option Error)
    → deploy_in (stores outage) default_cell_selector uuid 9 [] alice "t-1" request
      ≡ (created_db, ok (new_waiting, new_manifest))
unfolding deploy_in prepare_deployment check_access allows tenant_access_from_context
    get_filtered_profiles generate generate_vpa lock_references lock_cells lock_dataspaces
    set_pending_orchestration default_cell_selector generate_credential_specs create insert lookup
deployment_committed outage = refl

deploy_profile-sent_example :
    (deploy_profile (stores none) default_cell_selector uuid 9 [] alice "t-1" request
      ≡ (created_db, ok new_waiting))
    × (profile_store.find_by_id created_db new_waiting.id ≡ ok new_waiting)
    × Deployable
        (stores none)
        (stores-IsSound none)
        default_cell_selector
        uuid
        9
        []
        alice
        "t-1"
        new_waiting
        new_manifest
    × ((r : OrchestrationResponse)
        → (is_pending_orchestration new_waiting r ≡ true) ↔ Answers new_manifest r)
deploy_profile-sent_example =
    deploy_profile-sent (stores none) (stores-IsSound none) default_cell_selector uuid 9 []
      created_db created_db alice "t-1" request new_waiting new_manifest (deployment_committed none)
      refl refl

abbrev outage : Option Error
outage = some (plain "no responders")

removed :
    delete_in
      (stores outage)
      default_cell_selector
      uuid
      9
      (profile_store.delete created_db new_waiting.id)
    ≡ ([], ok tt)
unfolding remove set_pending_orchestration lookup delete
removed = refl

deploy_profile-unsent_example :
    (deploy_profile (stores outage) default_cell_selector uuid 9 [] alice "t-1" request
      ≡ ([], err (wrapped "error deploying participant" (plain "no responders"))))
    × (profile_store.find_by_id [] new_waiting.id ≡ err err_not_found)
deploy_profile-unsent_example =
    deploy_profile-unsent (stores outage) (stores-IsSound outage) default_cell_selector uuid 9 []
      created_db created_db [] alice "t-1" request new_waiting new_manifest (plain "no responders")
      (deployment_committed outage) refl removed

abbrev disposal_manifest : OrchestrationManifest
disposal_manifest =
    dispose_manifest (stores outage) uuid "p-1" profile (str "state") (dataspace ∷ [])

abbrev disposing_db : Map ParticipantProfile
disposing_db = ("p-1", next_version (to_dispose profile disposal_manifest)) ∷ []

disposal_committed :
    dispose_in (stores outage) uuid deployed_db alice "t-1" "p-1"
    ≡ (disposing_db, ok disposal_manifest)
unfolding dispose_in prepare_disposal find_profile find_by_id lookup check_access allows
    tenant_access_from_context get_filtered_profiles set_pending_orchestration
    generate_credential_specs update insert
disposal_committed = refl

abbrev reverted_db : Map ParticipantProfile
reverted_db = (revert_dispose (stores outage) disposing_db "p-1" disposal_manifest).0

revert_committed :
    revert_dispose (stores outage) disposing_db "p-1" disposal_manifest ≡ (reverted_db, ok tt)
unfolding revert_dispose revert_in find_by_id lookup is_pending_orchestration
    set_pending_orchestration insert get matches_pending update clear_pending delete
revert_committed = refl

deployed_found : profile_store.find_by_id deployed_db "p-1" ≡ ok profile
unfolding find_by_id lookup
deployed_found = refl

dispose_profile-reverted_example :
    (dispose_profile (stores outage) uuid deployed_db alice "t-1" "p-1"
      ≡ (reverted_db, err (wrapped "error disposing participant" (plain "no responders"))))
    × ((p' : ParticipantProfile) × (profile_store.find_by_id reverted_db "p-1" ≡ ok p')
        × Restored profile p')
dispose_profile-reverted_example =
    dispose_profile-reverted (stores outage) (stores-IsSound outage) uuid deployed_db disposing_db
      disposing_db reverted_db alice "t-1" "p-1" disposal_manifest (plain "no responders") profile
      disposal_committed deployed_found refl refl refl revert_committed

dispose_in-ok_example :
    (p' : ParticipantProfile) × Disposable
      (stores outage)
      (stores-IsSound outage)
      uuid
      deployed_db
      alice
      "t-1"
      "p-1"
      p'
      disposal_manifest
    × (profile_store.find_by_id disposing_db p'.id ≡ ok (next_version p'))
dispose_in-ok_example =
    dispose_in-ok (stores outage) (stores-IsSound outage) uuid deployed_db disposing_db alice "t-1"
      "p-1" disposal_manifest disposal_committed
