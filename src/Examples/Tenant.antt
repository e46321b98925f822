-- ===== src/Examples/Tenant.antt =====
-- Samples for the Tenant Manager's services, over the in-memory store of profiles.
mod Callback
mod Participants
mod Services
use cfm.Prelude.{
  str_eq, ℕ, ◌≡◌, refl, ◌⊎◌, ◌↔◌, inr, String, Bool, true, false, ◌&&◌, Option, none, some, List,
  [], ◌∷◌, ◌++◌, Map, pos, leb, if◌then◌else◌, lookup, insert, delete, arith,
}
use cfm.Json.{str, get}
use cfm.Errors.{Error, plain, wrapped, system_error, Result, ok, err, err_not_found}
use cfm.Store.{lock_exclusive, EntityStore, IsLawful}
use cfm.Store.Memory.{
  count_by_predicate, find_by_predicate, copies, in_memory_store, create, update, remove,
  find_by_id,
}
use cfm.Store.Memory.Laws.{in_memory_store-IsLawful}
use cfm.Store.Paging.{paginate, page, paginate_overflow}
use cfm.Engine.Client.{OrchestrationResponse}
use cfm.Tenant.{
  pending, active, disposed, ParticipantProfile, VirtualParticipantAgent, Tenant, Cell,
  DataspaceProfile, DataspaceDeployment, OrchestrationManifest, vpa_deploy_type, vpa_dispose_type,
  vpa_state_data, next_version,
}
use cfm.Tenant.Access.{
  TenantAccess, owned_tenants_access, tenant_access_from_context, allows, restrict, selects,
  check_access,
}
use cfm.Tenant.Pending.{
  set_pending_orchestration, is_pending_orchestration, matches_pending, clear_pending, Answers,
  set_pending_orchestration_iff,
}
use cfm.Tenant.Generation.{
  Deployment, default_cell_selector, generate, generate_vpa, generate_credential_specs,
}
use cfm.Tenant.Generation.Laws.{IsFirst}
use cfm.Tenant.Stores.{Stores, IsSound}
use cfm.Tenant.Callback.{with_state, deploy_updater, dispose_updater, applied, handle, handle_in}
use cfm.Tenant.Callback.Applied.{deploying, success_applied_once, failure_compensated}
use cfm.Tenant.Services.{find_tenant, patch_in, delete_tenant_in, delete_tenant, delete_cell}
use cfm.Tenant.Services.Guards.{CellUnused, delete_cell-CellUnused, foreign_tenant-IsHidden}
use cfm.Tenant.Participants.{
  find_profile, lock_references, get_filtered_profiles, lock_cells, lock_dataspaces,
}
use cfm.Tenant.Participants.Deploy.{
  deploy_manifest, deploy_in, prepare_deployment, delete_in, deploy_profile,
}
use cfm.Tenant.Participants.Deploy.Sending.{Deployable, deploy_profile-sent, deploy_profile-unsent}
use cfm.Tenant.Participants.Dispose.{
  dispose_manifest, to_dispose, dispose_in, prepare_disposal, dispose_profile, revert_dispose,
  revert_in,
}
use cfm.Tenant.Participants.Dispose.Reverting.{Disposable, dispose_in-ok, dispose_profile-reverted}

abbrev pub id_of : ParticipantProfile → String
id_of p = p.id

abbrev pub exact : ParticipantProfile → Result ParticipantProfile
exact p = ok p

abbrev pub profile_store : EntityStore (Map ParticipantProfile) ParticipantProfile
profile_store = in_memory_store id_of next_version exact

profile_store-IsLawful : IsLawful id_of next_version (in_memory_store id_of next_version exact)
profile_store-IsLawful = in_memory_store-IsLawful id_of next_version exact (λ e. refl) (λ e. refl)

-- A store that always holds the same entities, the first of which answers every read.
abbrev pub fixed : {A : Type 0} → A → EntityStore (Map ParticipantProfile) A
fixed a = record {
  find_by_id = λ w k. ok a;
  find_by_id_and_lock = λ w k m. ok a;
  create = λ w e. (w, ok e);
  update = λ w e. (w, none);
  delete = λ w k. (w, none);
  get_all = λ w. ok (a ∷ []);
  find_by_predicate = λ w p. ok (if p a then a ∷ [] else []);
  count_by_predicate = λ w p. ok (if p a then 1 else 0);
}

abbrev pub tenant : Tenant
tenant = record { id = "t-1"; version = 0; owner = "alice"; properties = [] }

abbrev pub cell : Cell
cell = record {
  id = "c-1";
  version = 0;
  state = active;
  state_timestamp = 0;
  external_id = "x-1";
  properties = [];
}

abbrev deployed_to_cell : DataspaceDeployment
deployed_to_cell = record {
  id = "d-1";
  version = 0;
  state = active;
  state_timestamp = 0;
  cell_id = "c-1";
  external_cell_id = "x-1";
  properties = [];
}

abbrev pub dataspace : DataspaceProfile
dataspace = record {
  id = "s-1";
  version = 0;
  protocol_stack = [];
  credential_specs = [];
  artifacts = [];
  deployments = deployed_to_cell ∷ [];
  properties = [];
}

-- `outage` is the error of every sending.
abbrev pub stores : Option Error → Stores
stores outage = record {
  World = Map ParticipantProfile;
  profiles = profile_store;
  tenants = fixed tenant;
  cells = fixed cell;
  dataspaces = fixed dataspace;
  commit = λ w x. x;
  send = λ w m. (w, outage);
}

pub stores-IsSound : (outage : Option Error) → IsSound (stores outage)
stores-IsSound outage = record {
  profiles-IsLawful = profile_store-IsLawful;
  committed = λ w x w' a h. h;
  sending = λ w m k. refl;
}

abbrev pub vpa : VirtualParticipantAgent
vpa = record {
  id = "v-1";
  version = 0;
  state = active;
  state_timestamp = 0;
  type = "cfm.connector";
  cell_id = "c-1";
  external_cell_id = "x-1";
  properties = [];
}

abbrev pub profile : ParticipantProfile
profile = record {
  id = "p-1";
  version = 3;
  identifier = "did:web:p";
  tenant_id = "t-1";
  owner = "alice";
  dataspace_profile_ids = "s-1" ∷ [];
  participant_roles = [];
  vpas = vpa ∷ [];
  properties = (vpa_state_data, str "state") ∷ [];
  error = false;
  error_detail = "";
}

abbrev pub alice : Option TenantAccess
alice = some (owned_tenants_access "alice")

abbrev pub deployed_db : Map ParticipantProfile
deployed_db = ("p-1", profile) ∷ []
