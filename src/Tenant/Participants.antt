-- ===== src/Tenant/Participants.antt =====
-- The participant service (tmanager/core/service_participant.go): what deploying and disposing of
-- profiles share.
-- The context is the tenant access that it carries.
pub mod Deploy
pub mod Dispose
use cfm.Prelude.{
  ℕ, String, Bool, true, false, not, Option, none, some, List, [], ◌∷◌, ◌++◌, Map, insert, lookup,
  keep, every, map, contains, str_eq, if◌then◌else◌,
}
use cfm.Json.{Value, str}
use cfm.Errors.{
  Error, plain, wrapped, joined, bad_request, is_not_found, Result, ok, err, ◌>>=◌, err_not_found,
}
use cfm.Store.{lock_shared}
use cfm.Engine.Client.{OrchestrationResponse}
use cfm.Tenant.{
  active, disposing, is_active, ParticipantProfile, VirtualParticipantAgent, Cell, DataspaceProfile,
  Tenant, OrchestrationManifest, PayloadEntry, json, vpa_manifests, credential_list,
  vpa_deploy_type, vpa_dispose_type, vpa_data, credential_data, vpa_state_data,
  participant_identifier,
}
use cfm.Tenant.Access.{TenantAccess, check_access}
use cfm.Tenant.Pending.{set_pending_orchestration, is_pending_orchestration, clear_pending}
use cfm.Tenant.Generation.{Selector, Deployment, generate, generate_credential_specs, vpa_manifest}
use cfm.Tenant.Stores.{Stores, unless_error}
use cfm.Tenant.Callback.{with_state}

abbrev pub payload :
    ParticipantProfile → List (String × PayloadEntry) → List DataspaceProfile → Map PayloadEntry
payload p more profiles =
    (participant_identifier, json (str p.identifier))
    ∷ (more
        ++ (vpa_data, vpa_manifests (map vpa_manifest p.vpas))
          ∷ (
            credential_data,
            credential_list (generate_credential_specs p.participant_roles profiles),
          )
          ∷ [])

-- The distinct cells of VPAs, less the empty ID.
abbrev pub cell_ids : List VirtualParticipantAgent → List String → List String
cell_ids [] seen = []
cell_ids (v ∷ vs) seen =
    let rest = cell_ids vs seen in
    let more = cell_ids vs (v.cell_id ∷ seen) in
    if str_eq v.cell_id "" then rest else if contains v.cell_id seen then rest else v.cell_id ∷ more

module _ (s : Stores) where
  open s use {World}

  -- A reference that cannot be locked: a deleted one is the client's error.
  abbrev pub lock_failure : String → Error → Error
  lock_failure text e = if is_not_found e then bad_request text else e

  unfoldable pub lock_cells : World → List String → Result (Unit {0})
  unfolding is_not_found
  lock_cells w [] = ok tt
  lock_cells w (k ∷ ks) =
      let rest = lock_cells w ks in
      elim (s.cells.find_by_id_and_lock w k lock_shared) [
        | err e ↦ err (lock_failure "cell was deleted" e)
        | ok _ ↦ rest
      ]

  unfoldable pub lock_dataspaces : World → List String → Result (Unit {0})
  unfolding is_not_found
  lock_dataspaces w [] = ok tt
  lock_dataspaces w (k ∷ ks) =
      let rest = lock_dataspaces w ks in
      elim (s.dataspaces.find_by_id_and_lock w k lock_shared) [
        | err e ↦ err (lock_failure "dataspace profile was deleted" e)
        | ok _ ↦ rest
      ]

  unfoldable pub lock_references : World → ParticipantProfile → Result (Unit {0})
  unfolding lock_cells lock_dataspaces
  lock_references w p =
      lock_cells w (cell_ids p.vpas []) >>= (λ _. lock_dataspaces w p.dataspace_profile_ids)

  abbrev pub none_is_error : List DataspaceProfile → Result (List DataspaceProfile)
  none_is_error [] = err (plain "no dataspace profiles found")
  none_is_error (p ∷ ps) = ok (p ∷ ps)

  abbrev pub filtered : List String → List DataspaceProfile → List DataspaceProfile
  filtered [] profiles = profiles
  filtered (k ∷ ks) profiles = keep (λ p. contains p.id (k ∷ ks)) profiles

  unfoldable pub get_filtered_profiles : World → List String → Result (List DataspaceProfile)
  get_filtered_profiles w ids =
      s.dataspaces.get_all w >>= (λ profiles. none_is_error (filtered ids profiles))

  -- GetProfile
  unfoldable pub find_profile :
      World → Option TenantAccess → String → String → Result ParticipantProfile
  unfolding check_access
  find_profile w ctx tenant_id id = s.profiles.find_by_id w id >>= (λ p.
      if str_eq p.tenant_id tenant_id
      then unless_error (check_access ctx p.owner) >>= (λ _. ok p)
      else err err_not_found)

  unfoldable pub get_profile :
      World → Option TenantAccess → String → String → World × Result ParticipantProfile
  unfolding find_profile
  get_profile w ctx tenant_id id = s.commit w (w, find_profile w ctx tenant_id id)
