-- ===== src/Tenant.antt =====
-- The Tenant Manager: its entities and, in the children, its services (tmanager).
pub mod Access
pub mod Pending
pub mod Generation
pub mod References
pub mod Stores
pub mod Participants
pub mod Callback
pub mod Services
use cfm.Prelude.{ℕ, suc, String, Bool, true, false, List, Map}
use cfm.Json.{Value}

-- DeploymentState: the named states; `unset` is the empty string.
pub data DeploymentState : Type 0 where
  unset initial pending active disposing disposed locked offline error : DeploymentState

abbrev pub is_active : DeploymentState → Bool
is_active active = true
is_active _ = false

abbrev pub is_disposed : DeploymentState → Bool
is_disposed disposed = true
is_disposed _ = false

-- Timestamps are numbers that the clock gave.
pub record VirtualParticipantAgent : Type 0 where
  pub id : String
  pub version : ℕ
  pub state : DeploymentState
  pub state_timestamp : ℕ
  pub type : String
  pub cell_id : String
  pub external_cell_id : String
  pub properties : Map Value

pub record ParticipantProfile : Type 0 where
  pub id : String
  pub version : ℕ
  pub identifier : String
  pub tenant_id : String
  pub owner : String
  pub dataspace_profile_ids : List String
  pub participant_roles : Map (List String)
  pub vpas : List VirtualParticipantAgent
  pub properties : Map Value
  pub error : Bool
  pub error_detail : String

pub record Tenant : Type 0 where
  pub id : String
  pub version : ℕ
  pub owner : String
  pub properties : Map Value

pub record Cell : Type 0 where
  pub id : String
  pub version : ℕ
  pub state : DeploymentState
  pub state_timestamp : ℕ
  pub external_id : String
  pub properties : Map Value

pub record DataspaceDeployment : Type 0 where
  pub id : String
  pub version : ℕ
  pub state : DeploymentState
  pub state_timestamp : ℕ
  pub cell_id : String
  pub external_cell_id : String
  pub properties : Map Value

pub record CredentialSpec : Type 0 where
  pub id : String
  pub type : String
  pub issuer : String
  pub format : String
  pub participant_role : String

pub record DataspaceProfile : Type 0 where
  pub id : String
  pub version : ℕ
  pub protocol_stack : List String
  pub credential_specs : List CredentialSpec
  pub artifacts : List String
  pub deployments : List DataspaceDeployment
  pub properties : Map Value

-- IncrementVersion of a profile
abbrev pub next_version : ParticipantProfile → ParticipantProfile
next_version p = record p { version = suc p.version }

pub record VpaManifest : Type 0 where
  pub id : String
  pub vpa_type : String
  pub cell_id : String
  pub external_cell_id : String
  pub properties : Map Value

-- An entry of a manifest's payload, with the Go type that the Tenant Manager gives it.
pub data PayloadEntry : Type 0 where
  json : Value → PayloadEntry
  vpa_manifests : List VpaManifest → PayloadEntry
  credential_list : List CredentialSpec → PayloadEntry

pub record OrchestrationManifest : Type 0 where
  pub id : String
  pub correlation_id : String
  pub orchestration_type : String
  pub payload : Map PayloadEntry
  pub compensated_manifest_id : String

-- model.VPADeployType, model.VPADisposeType and the keys of payloads and properties
abbrev pub vpa_deploy_type : String
vpa_deploy_type = "cfm.orchestration.vpa.deploy"

abbrev pub vpa_dispose_type : String
vpa_dispose_type = "cfm.orchestration.vpa.dispose"

abbrev pub vpa_data : String
vpa_data = "cfm.vpa.data"

abbrev pub credential_data : String
credential_data = "cfm.vpa.credentials"

abbrev pub vpa_state_data : String
vpa_state_data = "cfm.vpa.state"

abbrev pub participant_identifier : String
participant_identifier = "cfm.participant.id"
