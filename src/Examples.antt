-- ===== src/Examples.antt =====
-- Samples on which the theorems are applied, and runs of the definitions.
mod Nats
mod Subjects
mod Dag
mod Query
mod System
mod Engine
mod Tenant
mod Manager
mod Definitions
mod Token
