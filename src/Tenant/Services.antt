-- ===== src/Tenant/Services.antt =====
-- The services for tenants, cells and dataspace profiles (tmanager/core/service_tenant.go,
-- service_cell.go and service_dataspace.go). Queries, which pass a restricted predicate on, are left out.
pub mod Guards
use cfm.Prelude.{
  ℕ, zero, suc, String, Bool, true, false, not, Option, none, some, List, [], ◌∷◌, ◌++◌, Map,
  insert, delete, merge, contains, some_of, if◌then◌else◌, str_eq,
}
use cfm.Json.{Value}
use cfm.Errors.{Error, wrapped, bad_request, err_conflict, is_not_found, Result, ok, err, ◌>>=◌}
use cfm.Store.{lock_shared, lock_exclusive}
use cfm.Tenant.{
  active, Tenant, Cell, ParticipantProfile, VirtualParticipantAgent, DataspaceProfile,
  DataspaceDeployment,
}
use cfm.Tenant.Access.{TenantAccess, tenant_access_from_context, check_access}
use cfm.Tenant.References.{
  participant_uses_cell, participant_is_disposed, dataspace_profile_uses_cell,
}
use cfm.Tenant.Stores.{Stores, unless_error}

module _ (s : Stores) where
  open s use {World}

  abbrev written : World × Option Error → World × Result (Unit {0})
  written (w, e) = (w, unless_error e)

  -- GetTenant, up to its transaction
  unfoldable pub find_tenant : World → Option TenantAccess → String → Result Tenant
  unfolding check_access
  find_tenant w ctx id =
      s.tenants.find_by_id w id >>= (λ t. unless_error (check_access ctx t.owner) >>= (λ _. ok t))

  unfoldable pub get_tenant : World → Option TenantAccess → String → World × Result Tenant
  unfolding find_tenant
  get_tenant w ctx id = s.commit w (w, find_tenant w ctx id)

  unfoldable pub create_tenant : World → Option TenantAccess → Tenant → World × Result Tenant
  unfolding tenant_access_from_context
  create_tenant w ctx t = elim (tenant_access_from_context ctx) [
    | err e ↦ (w, err e)
    | ok a ↦ s.commit w (s.tenants.create w (record t { owner = a.subject }))
  ]

  abbrev pub without : Map Value → List String → Map Value
  without m [] = m
  without m (k ∷ ks) = without (delete m k) ks

  abbrev pub patched : Tenant → Map Value → List String → Tenant
  patched t properties remove = record t {
    properties = without (merge t.properties properties) remove;
  }

  abbrev after_patch : World × Option Error → World × Result (Unit {0})
  after_patch (w, none) = (w, ok tt)
  after_patch (w, some e) = (w, err (wrapped "unable to patch tenant" e))

  unfoldable pub patch_in :
      World → Option TenantAccess → String → Map Value → List String → World × Result (Unit {0})
  unfolding check_access is_not_found
  patch_in w ctx id properties remove = elim (s.tenants.find_by_id w id) [
    | err e ↦ (w, err (if is_not_found e then e else wrapped "tenant not found" e))
    | ok t ↦ elim (check_access ctx t.owner) [
      | some e ↦ (w, err e)
      | none ↦ after_patch (s.tenants.update w (patched t properties remove))
    ]
  ]

  unfoldable pub patch_tenant :
      World → Option TenantAccess → String → Map Value → List String → World × Result (Unit {0})
  unfolding patch_in
  patch_tenant w ctx id properties remove = s.commit w (patch_in w ctx id properties remove)

  abbrev pub of_tenant : Tenant → ParticipantProfile → Bool
  of_tenant t p = str_eq p.tenant_id t.id

  -- A tenant that profiles are counted for stays.
  abbrev pub unless_counted : World → Tenant → Result ℕ → World × Result (Unit {0})
  unless_counted w t (err e) = (w, err e)
  unless_counted w t (ok zero) = written (s.tenants.delete w t.id)
  unless_counted w t (ok (suc n)) = (w, err (bad_request "cannot delete tenant with participants"))

  unfoldable pub delete_tenant_in : World → Option TenantAccess → String → World × Result (Unit {0})
  unfolding check_access
  delete_tenant_in w ctx id = elim (s.tenants.find_by_id_and_lock w id lock_exclusive) [
    | err e ↦ (w, err e)
    | ok t ↦ elim (check_access ctx t.owner) [
      | some e ↦ (w, err e)
      | none ↦ unless_counted w t (s.profiles.count_by_predicate w (of_tenant t))
    ]
  ]

  unfoldable pub delete_tenant : World → Option TenantAccess → String → World × Result (Unit {0})
  unfolding delete_tenant_in
  delete_tenant w ctx id = s.commit w (delete_tenant_in w ctx id)

  -- The predicates vpas.cellId = id, deployments.cellId = id and dataspaceProfileIds = id
  abbrev pub in_cell : String → ParticipantProfile → Bool
  in_cell id p = some_of (λ v. str_eq v.cell_id id) p.vpas

  abbrev pub deployed_in : String → DataspaceProfile → Bool
  deployed_in id d = some_of (λ x. str_eq x.cell_id id) d.deployments

  abbrev pub in_dataspace : String → ParticipantProfile → Bool
  in_dataspace id p = contains id p.dataspace_profile_ids

  abbrev pub unless_used : List Bool → String → Result (Unit {0})
  unless_used [] text = ok tt
  unless_used (used ∷ more) text =
      let rest = unless_used more text in if used then err (bad_request text) else rest

  abbrev pub uses {ℓ} : {A : Type ℓ} → (A → Bool) → List A → List Bool
  uses f [] = []
  uses f (x ∷ xs) = f x ∷ uses f xs

  -- The checks of DeleteCell.
  unfoldable pub check_cell_unused : World → String → Result (Unit {0})
  unfolding participant_uses_cell dataspace_profile_uses_cell
  check_cell_unused w id = s.cells.find_by_id_and_lock w id lock_exclusive >>= (λ _.
      s.profiles.find_by_predicate w (in_cell id) >>= (λ ps.
        unless_used (uses (λ p. participant_uses_cell p id) ps)
          "cannot delete cell: participant profile has VPAs in it"
        >>= (λ _. s.dataspaces.find_by_predicate w (deployed_in id) >>= (λ ds.
            unless_used (uses (λ d. dataspace_profile_uses_cell d id) ds)
              "cannot delete cell: dataspace profile is deployed to it"))))

  abbrev pub delete_if :
      World → Result (Unit {0}) → World × Option Error → World × Result (Unit {0})
  delete_if w (err e) done = (w, err e)
  delete_if w (ok _) done = written done

  unfoldable pub delete_cell : World → String → World × Result (Unit {0})
  unfolding check_cell_unused
  delete_cell w id = s.commit w (delete_if w (check_cell_unused w id) (s.cells.delete w id))

  -- RecordExternalDeployment, up to its transaction
  unfoldable pub record_cell_in : World → Cell → World × Result Cell
  record_cell_in w cell =
      if str_eq cell.external_id ""
      then s.cells.create w cell
      else elim (s.cells.count_by_predicate w (λ c. str_eq c.external_id cell.external_id)) [
        | err e ↦ (w, err e)
        | ok n ↦ elim n [ zero ↦ s.cells.create w cell | suc _ ↦ (w, err err_conflict) ]
      ]

  unfoldable pub record_external_deployment : World → Cell → World × Result Cell
  unfolding record_cell_in
  record_external_deployment w cell = s.commit w (record_cell_in w cell)

  -- The checks of DeleteProfile.
  unfoldable pub check_profile_unused : World → String → Result (Unit {0})
  unfolding participant_is_disposed
  check_profile_unused w id = s.dataspaces.find_by_id_and_lock w id lock_exclusive >>= (λ _.
      s.profiles.find_by_predicate w (in_dataspace id) >>= (λ ps.
        unless_used (uses (λ p. not (participant_is_disposed p)) ps)
          "cannot delete dataspace profile: participant profile uses it"))

  unfoldable pub delete_dataspace_profile : World → String → World × Result (Unit {0})
  unfolding check_profile_unused
  delete_dataspace_profile w id =
      s.commit w (delete_if w (check_profile_unused w id) (s.dataspaces.delete w id))

  abbrev pub deployment_to : String → Cell → DataspaceDeployment
  deployment_to id cell = record {
    id = id;
    version = 0;
    state = active;
    state_timestamp = 0;
    cell_id = cell.id;
    external_cell_id = cell.external_id;
    properties = [];
  }

  -- DeployProfile of a dataspace profile, given the new ID; the zero time is 0.
  unfoldable pub deploy_dataspace_in : World → String → String → String → World × Result (Unit {0})
  deploy_dataspace_in w new_id id cell_id = elim (s.dataspaces.find_by_id w id) [
    | err e ↦ (w, err e)
    | ok d ↦ elim (s.cells.find_by_id_and_lock w cell_id lock_shared) [
      | err e ↦ (w, err e)
      | ok cell ↦ written (
          s.dataspaces.update w
            (record d { deployments = d.deployments ++ deployment_to new_id cell ∷ [] }))
    ]
  ]

  unfoldable pub deploy_dataspace_profile :
      World → String → String → String → World × Result (Unit {0})
  unfolding deploy_dataspace_in
  deploy_dataspace_profile w new_id id cell_id =
      s.commit w (deploy_dataspace_in w new_id id cell_id)
