-- ===== src/Database.antt =====
-- The stores behind the API: Redis and the relational tables.
pub mod Client
pub mod Redis
pub mod Memory
pub mod Table
pub mod Unique
