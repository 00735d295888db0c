-- ===== src/Operator.antt =====
-- The Cassandra operator (operator): one module for each of its parts.
pub mod Streams
pub mod DataCenters
pub mod Hosts
pub mod Seeds
pub mod Validation
pub mod Cluster
pub mod StatefulSets
pub mod Template
pub mod Configuration
pub mod Smoke
pub mod Users
pub mod Scaling
pub mod Services
pub mod Reaper
pub mod Topology
pub mod Examples
pub mod ReplicaExamples
pub mod Build
