-- ===== src/Acl.antt =====
-- services/acl/internal/acl: who may read which document of a tenant.
pub mod Model
pub mod Nested
pub mod Docs
pub mod Memory
pub mod RedisServer
pub mod RedisStore
pub mod Endpoint
pub mod Agree
pub mod Start
pub mod Tests
