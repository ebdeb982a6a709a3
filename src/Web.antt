-- ===== src/Web.antt =====
-- The web client.
pub mod Tabs
pub mod Notices
pub mod Progress
pub mod ApiClient
