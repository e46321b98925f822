-- ===== src/Tenant/Generation.antt =====
-- The profiles that a deployment creates, and what its orchestration is told (tmanager/core/
-- generation.go, generation_vpa.go and service_participant.go). `ids` are the results of the calls of
-- uuid.New, in their order, and `now` is the clock's time.
pub mod Laws
use cfm.Prelude.{
  ℕ, String, Bool, true, false, ◌&&◌, Option, none, some, List, [], ◌∷◌, ◌++◌, Map, lookup, keep,
  some_of, map, contains, from_option, str_eq, if◌then◌else◌,
}
use cfm.Json.{Value}
use cfm.Errors.{Error, plain, Result, ok, err, ◌>>=◌}
use cfm.Tenant.{
  pending, is_active, VirtualParticipantAgent, ParticipantProfile, Cell, DataspaceProfile,
  CredentialSpec, VpaManifest, vpa_deploy_type,
}

-- Does an active deployment of one of these profiles use the cell?
abbrev pub serves : List DataspaceProfile → Cell → Bool
serves profiles cell =
    some_of (λ p. some_of (λ d. is_active d.state && str_eq d.cell_id cell.id) p.deployments)
      profiles

-- defaultCellSelector
unfoldable pub default_cell_selector : String → List Cell → List DataspaceProfile → Result Cell
default_cell_selector orchestration_type [] profiles = err (plain "no active cell found")
default_cell_selector orchestration_type (cell ∷ cells) profiles =
    if is_active cell.state && serves profiles cell
    then ok cell
    else default_cell_selector orchestration_type cells profiles

abbrev pub Selector : Type 0
Selector = String → List Cell → List DataspaceProfile → Result Cell

-- generateVPA
unfoldable pub generate_vpa : String → ℕ → String → Map (Map Value) → Cell → VirtualParticipantAgent
generate_vpa id now vpa_type vpa_properties cell = record {
  id = id;
  version = 0;
  state = pending;
  state_timestamp = now;
  type = vpa_type;
  cell_id = cell.id;
  external_cell_id = cell.external_id;
  properties = from_option [] (lookup vpa_properties vpa_type);
}

pub record Deployment : Type 0 where
  pub identifier : String
  pub dataspace_profile_ids : List String
  pub participant_roles : Map (List String)
  pub vpa_properties : Map (Map Value)
  pub properties : Map Value

abbrev pub generated :
    (ℕ → String) → ℕ → String → Deployment → List DataspaceProfile → Cell → ParticipantProfile
generated ids now tenant_id d profiles cell = record {
  id = ids 4;
  version = 0;
  identifier = d.identifier;
  tenant_id = tenant_id;
  owner = "";
  dataspace_profile_ids = map (λ p. p.id) profiles;
  participant_roles = d.participant_roles;
  vpas =
      generate_vpa (ids 0) now "cfm.connector" d.vpa_properties cell
      ∷ generate_vpa (ids 1) now "cfm.credentialservice" d.vpa_properties cell
      ∷ generate_vpa (ids 2) now "cfm.dataplane" d.vpa_properties cell
      ∷ generate_vpa (ids 3) now "cfm.issuer" d.vpa_properties cell
      ∷ [];
  properties = d.properties;
  error = false;
  error_detail = "";
}

-- Generate
unfoldable pub generate :
    Selector
    → (ℕ → String)
    → ℕ
    → String
    → Deployment
    → List Cell
    → List DataspaceProfile
    → Result ParticipantProfile
unfolding generate_vpa
generate selector ids now tenant_id d cells profiles =
    selector vpa_deploy_type cells profiles
    >>= (λ cell. ok (generated ids now tenant_id d profiles cell))

-- Does the participant have the role that a credential is for in this dataspace?
abbrev pub wants : Map (List String) → String → CredentialSpec → Bool
wants roles profile_id spec =
    if str_eq spec.participant_role ""
    then true
    else contains spec.participant_role (from_option [] (lookup roles profile_id))

-- generateCredentialSpecs
unfoldable pub generate_credential_specs :
    Map (List String) → List DataspaceProfile → List CredentialSpec
generate_credential_specs roles [] = []
generate_credential_specs roles (p ∷ ps) =
    keep (wants roles p.id) p.credential_specs ++ generate_credential_specs roles ps

abbrev pub vpa_manifest : VirtualParticipantAgent → VpaManifest
vpa_manifest v = record {
  id = v.id;
  vpa_type = v.type;
  cell_id = v.cell_id;
  external_cell_id = v.external_cell_id;
  properties = v.properties;
}
