-- ===== src/Idempotency.antt =====
-- common/idempotency: the types, the store and the service, and their laws.
pub mod Types
pub mod Store
pub mod Service
pub mod Table
pub mod Claims
pub mod Replay
