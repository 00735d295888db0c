-- ===== src/Services/Dbaas.antt =====
-- pkg/dbaas: the deployment of the DBaaS adapter, and its service.
pub mod Template
pub mod Step
