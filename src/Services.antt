-- ===== src/Services.antt =====
-- The operator of the supplementary services (services/service): one module for each of its parts.
pub mod Resource
pub mod Platform
pub mod Labels
pub mod Pods
pub mod SshKeys
pub mod Backup
pub mod Dbaas
pub mod Robot
pub mod Build
pub mod Created
pub mod Readiness
pub mod Examples
