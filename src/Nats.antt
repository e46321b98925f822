-- ===== src/Nats.antt =====
-- Reliable message handling over NATS JetStream (common/natsclient).
pub mod Retry
pub mod Processor
pub mod Subjects
