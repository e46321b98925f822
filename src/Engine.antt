-- ===== src/Engine.antt =====
-- The orchestration engine over NATS (pmanager/natsorchestration).
pub mod Client
pub mod Truncate
pub mod Activity
pub mod Handlers
pub mod Executor
pub mod Orchestrator
