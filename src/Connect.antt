-- ===== src/Connect.antt =====
-- internal/sparkconnect: the Spark Connect client.
pub mod Errors
pub mod Config
pub mod Reader
pub mod Client
