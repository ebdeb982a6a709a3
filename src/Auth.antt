-- ===== src/Auth.antt =====
-- Authentication and authorisation of the API.
pub mod Session
pub mod Double
pub mod Duration
pub mod Account
pub mod Tests
