-- ===== src/Admin.antt =====
-- internal/admin: the administration of users, documents and permissions over Redis, with a vector
-- search in Milvus beside it.
pub mod Text
pub mod Redis
pub mod Search
pub mod Env
pub mod Pages
pub mod Glob
pub mod Start
pub mod Sample
pub mod Service
pub mod Routes
pub mod Tests
