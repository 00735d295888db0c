-- ===== src/Services/Backup.antt =====
-- pkg/backup: the deployment of the backup daemon, and its service.
pub mod Template
pub mod Step
