-- ===== src/Manager.antt =====
-- The Provision Manager: starting orchestrations, answering manifests, and the index with its
-- compensations (pmanager/core/provision.go, pmanager/natsprovision, pmanager/natsorchestration/watcher.go).
pub mod Provision
pub mod Watcher
pub mod Definitions
use cfm.Prelude.{String, List, Map}
use cfm.Orchestration.{Activity}
use cfm.Json.{Value, Fields}

-- api.OrchestrationDefinition, with what starting an orchestration reads
pub record OrchestrationDefinition : Type 0 where
  pub type : String
  pub activities : List Activity
  pub template_ref : String

-- api.ActivityDefinition, with what the code reads
pub record ActivityDefinition : Type 0 where
  pub type : String
  pub input_schema : Fields
  pub output_schema : Fields

-- model.OrchestrationManifest as the Provision Manager reads it: its payload is plain JSON
pub record Manifest : Type 0 where
  pub id : String
  pub correlation_id : String
  pub orchestration_type : String
  pub payload : Map Value
  pub compensated_manifest_id : String
