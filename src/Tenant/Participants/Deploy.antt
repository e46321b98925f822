-- ===== src/Tenant/Participants/Deploy.antt =====
-- DeployProfile (tmanager/core/service_participant.go). `ids` are the results of the calls of uuid.New, and
-- `now` is the clock's time.
pub mod Sending
use cfm.Prelude.{
  ℕ, String, Bool, true, false, not, Option, none, some, List, [], ◌∷◌, ◌++◌, Map, insert, lookup,
  keep, every, map, contains, str_eq, if◌then◌else◌,
}
use cfm.Json.{Value, str}
use cfm.Errors.{
  Error, plain, wrapped, joined, bad_request, is_not_found, Result, ok, err, ◌>>=◌, err_not_found,
}
use cfm.Store.{lock_shared}
use cfm.Engine.Client.{OrchestrationResponse}
use cfm.Tenant.{
  active, disposing, is_active, ParticipantProfile, VirtualParticipantAgent, Cell, DataspaceProfile,
  Tenant, OrchestrationManifest, PayloadEntry, json, vpa_manifests, credential_list,
  vpa_deploy_type, vpa_dispose_type, vpa_data, credential_data, vpa_state_data,
  participant_identifier,
}
use cfm.Tenant.Access.{TenantAccess, check_access}
use cfm.Tenant.Pending.{set_pending_orchestration, is_pending_orchestration, clear_pending}
use cfm.Tenant.Generation.{Selector, Deployment, generate, generate_credential_specs, vpa_manifest}
use cfm.Tenant.Stores.{Stores, unless_error}
use cfm.Tenant.Callback.{with_state}
use cfm.Tenant.Participants.{
  payload, lock_references, get_filtered_profiles, find_profile, lock_cells, lock_dataspaces,
}

abbrev pub owned : Tenant → ParticipantProfile → ParticipantProfile
owned tenant p = record p { owner = tenant.owner }

module _ (s : Stores) (selector : Selector) (ids : ℕ → String) (now : ℕ) where
  open s use {World}

  abbrev pub deploy_manifest : ParticipantProfile → List DataspaceProfile → OrchestrationManifest
  deploy_manifest p profiles = record {
    id = ids 5;
    correlation_id = p.id;
    orchestration_type = vpa_deploy_type;
    payload = payload p [] profiles;
    compensated_manifest_id = "";
  }

  -- The reads of DeployProfile, up to the profile to store and its manifest.
  unfoldable pub prepare_deployment :
      World
      → Option TenantAccess
      → String
      → Deployment
      → Result (ParticipantProfile × OrchestrationManifest)
  unfolding check_access get_filtered_profiles generate lock_references set_pending_orchestration
  prepare_deployment w ctx tenant_id d =
      s.tenants.find_by_id_and_lock w tenant_id lock_shared >>= (λ tenant.
        unless_error (check_access ctx tenant.owner) >>= (λ _. s.cells.get_all w >>= (λ cells.
          get_filtered_profiles s w d.dataspace_profile_ids >>= (λ profiles.
            generate selector ids now tenant_id d cells profiles >>= (λ p.
              lock_references s w (owned tenant p) >>= (λ _.
                let m = deploy_manifest (owned tenant p) profiles in
                ok (set_pending_orchestration (owned tenant p) m, m)))))))

  abbrev pub after_create :
      OrchestrationManifest
      → World × Result ParticipantProfile
      → World × Result (ParticipantProfile × OrchestrationManifest)
  after_create m (w', ok p) = (w', ok (p, m))
  after_create m (w', err e) = (w', err (wrapped "error creating participant" e))

  -- The callback that DeployProfile executes in its transaction.
  unfoldable pub deploy_in :
      World
      → Option TenantAccess
      → String
      → Deployment
      → World × Result (ParticipantProfile × OrchestrationManifest)
  unfolding prepare_deployment
  deploy_in w ctx tenant_id d = elim (prepare_deployment w ctx tenant_id d) [
    | err e ↦ (w, err e)
    | ok x ↦ after_create x.1 (s.profiles.create w x.0)
  ]

  abbrev pub delete_in : World × Option Error → World × Result (Unit {0})
  delete_in (w', e) = (w', unless_error e)

  abbrev pub send_failed : Error → World × Result (Unit {0}) → World × Result ParticipantProfile
  send_failed e (w', ok _) = (w', err (wrapped "error deploying participant" e))
  send_failed e (w', err x) = (
    w',
    err (
        joined (wrapped "error deploying participant" e)
          (wrapped "error removing participant profile" x)),
  )

  abbrev pub after_send :
      ParticipantProfile → World × Option Error → World × Result ParticipantProfile
  after_send p (w', none) = (w', ok p)
  after_send p (w', some e) = send_failed e (s.commit w' (delete_in (s.profiles.delete w' p.id)))

  abbrev pub after_commit :
      World × Result (ParticipantProfile × OrchestrationManifest)
      → World × Result ParticipantProfile
  after_commit (w', err e) = (w', err e)
  after_commit (w', ok (p, m)) = after_send p (s.send w' m)

  unfoldable pub deploy_profile :
      World → Option TenantAccess → String → Deployment → World × Result ParticipantProfile
  unfolding deploy_in
  deploy_profile w ctx tenant_id d = after_commit (s.commit w (deploy_in w ctx tenant_id d))
