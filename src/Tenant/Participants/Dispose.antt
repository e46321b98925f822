-- ===== src/Tenant/Participants/Dispose.antt =====
-- DisposeProfile and revertDispose (tmanager/core/service_participant.go). `ids` are the results of the
-- calls of uuid.New.
pub mod Restored
pub mod Reverting
use cfm.Prelude.{
  ℕ, String, Bool, true, false, not, Option, none, some, List, [], ◌∷◌, ◌++◌, Map, insert, lookup,
  keep, every, map, contains, str_eq, if◌then◌else◌,
}
use cfm.Json.{Value, str}
use cfm.Errors.{
  Error, plain, wrapped, joined, bad_request, is_not_found, Result, ok, err, ◌>>=◌, err_not_found,
}
use cfm.Store.{lock_shared}
use cfm.Engine.Client.{OrchestrationResponse}
use cfm.Tenant.{
  active, disposing, is_active, ParticipantProfile, VirtualParticipantAgent, Cell, DataspaceProfile,
  Tenant, OrchestrationManifest, PayloadEntry, json, vpa_manifests, credential_list,
  vpa_deploy_type, vpa_dispose_type, vpa_data, credential_data, vpa_state_data,
  participant_identifier,
}
use cfm.Tenant.Access.{TenantAccess, check_access}
use cfm.Tenant.Pending.{set_pending_orchestration, is_pending_orchestration, clear_pending}
use cfm.Tenant.Generation.{Selector, Deployment, generate, generate_credential_specs, vpa_manifest}
use cfm.Tenant.Stores.{Stores, unless_error}
use cfm.Tenant.Callback.{with_state}
use cfm.Tenant.Participants.{
  payload, lock_references, get_filtered_profiles, find_profile, lock_cells, lock_dataspaces,
}

abbrev pub all_active : ParticipantProfile → Bool
all_active p = every (λ v. is_active v.state) p.vpas

abbrev pub state_data_of : ParticipantProfile → Result Value
state_data_of p = elim (lookup p.properties vpa_state_data) [
  | none ↦ err (plain "profile is not deployed or is missing state data")
  | some v ↦ ok v
]

abbrev pub to_dispose : ParticipantProfile → OrchestrationManifest → ParticipantProfile
to_dispose p m = set_pending_orchestration (record p { vpas = with_state disposing p.vpas }) m

abbrev pub reverted : ParticipantProfile → ParticipantProfile
reverted p =
    let cleared = clear_pending p in record cleared { vpas = with_state active cleared.vpas }

-- The response that revertDispose asks for.
abbrev pub response_to : OrchestrationManifest → OrchestrationResponse
response_to m = record {
  id = "";
  manifest_id = m.id;
  correlation_id = "";
  success = false;
  error_detail = "";
  orchestration_type = m.orchestration_type;
  properties = [];
  compensated_manifest_id = "";
}

module _ (s : Stores) where
  open s use {World}

  abbrev pub after_update :
      OrchestrationManifest → World × Option Error → World × Result OrchestrationManifest
  after_update m (w', none) = (w', ok m)
  after_update m (w', some e) = (w', err (wrapped "error disposing participant" e))

  abbrev pub reverted_or : World × Option Error → World × Result (Unit {0})
  reverted_or (w', none) = (w', ok tt)
  reverted_or (w', some e) = (w', err (wrapped "error reverting dispose of participant" e))

  unfoldable pub revert_in : World → String → OrchestrationManifest → World × Result (Unit {0})
  unfolding is_pending_orchestration clear_pending
  revert_in w id m = elim (s.profiles.find_by_id w id) [
    | err e ↦ (w, err (wrapped "error reverting dispose of participant" e))
    | ok p ↦
        if is_pending_orchestration p (response_to m)
        then reverted_or (s.profiles.update w (reverted p))
        else (w, ok tt)
  ]

  unfoldable pub revert_dispose : World → String → OrchestrationManifest → World × Result (Unit {0})
  unfolding revert_in
  revert_dispose w id m = s.commit w (revert_in w id m)

  abbrev pub dispose_failed : Error → World × Result (Unit {0}) → World × Result (Unit {0})
  dispose_failed e (w', ok _) = (w', err (wrapped "error disposing participant" e))
  dispose_failed e (w', err x) = (w', err (joined (wrapped "error disposing participant" e) x))

  abbrev pub after_dispose_send :
      String → OrchestrationManifest → World × Option Error → World × Result (Unit {0})
  after_dispose_send id m (w', none) = (w', ok tt)
  after_dispose_send id m (w', some e) = dispose_failed e (revert_dispose w' id m)

  abbrev pub after_dispose_commit :
      String → World × Result OrchestrationManifest → World × Result (Unit {0})
  after_dispose_commit id (w', err e) = (w', err e)
  after_dispose_commit id (w', ok m) = after_dispose_send id m (s.send w' m)

  module _ (ids : ℕ → String) where
    abbrev pub dispose_manifest :
        String → ParticipantProfile → Value → List DataspaceProfile → OrchestrationManifest
    dispose_manifest id p state_data profiles = record {
      id = ids 0;
      correlation_id = id;
      orchestration_type = vpa_dispose_type;
      payload = payload p ((vpa_state_data, json state_data) ∷ []) profiles;
      compensated_manifest_id = "";
    }

    -- The reads of DisposeProfile.
    unfoldable pub prepare_disposal :
        World
        → Option TenantAccess
        → String
        → String
        → Result (ParticipantProfile × OrchestrationManifest)
    unfolding find_profile get_filtered_profiles set_pending_orchestration
    prepare_disposal w ctx tenant_id id = find_profile s w ctx tenant_id id >>= (λ p.
        if all_active p
        then state_data_of p >>= (λ state_data.
          get_filtered_profiles s w p.dataspace_profile_ids >>= (λ profiles.
            let m = dispose_manifest id p state_data profiles in ok (to_dispose p m, m)))
        else err (plain "cannot dispose VPAs in states other than active"))

    unfoldable pub dispose_in :
        World → Option TenantAccess → String → String → World × Result OrchestrationManifest
    unfolding prepare_disposal
    dispose_in w ctx tenant_id id = elim (prepare_disposal w ctx tenant_id id) [
      | err e ↦ (w, err e)
      | ok x ↦ after_update x.1 (s.profiles.update w x.0)
    ]

    unfoldable pub dispose_profile :
        World → Option TenantAccess → String → String → World × Result (Unit {0})
    unfolding dispose_in revert_dispose
    dispose_profile w ctx tenant_id id =
        after_dispose_commit id (s.commit w (dispose_in w ctx tenant_id id))
