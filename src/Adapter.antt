-- ===== src/Adapter.antt =====
-- The DBaaS adapter (services/dbaas-adapter): one module for each of its parts.
pub mod Outside
pub mod Session
pub mod Service
pub mod Admin
pub mod Names
pub mod CreateDatabase
pub mod Users
pub mod Resources
pub mod Leaks
pub mod Examples
