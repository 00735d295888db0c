-- ===== src/Services/Resource.antt =====
-- api/v1alpha1/cassandraservices_types.go: the resource of the supplementary services. A pointer
-- that may be nil is an option, and counts are natural numbers.
use qubership_cassandra_oper.Base.{ℕ, String, Bool, Option, List}
use qubership_cassandra_oper.Base.Maps.{StringMap}
use qubership_cassandra_oper.Kube.{Opaque}

pub record SchemaDataCenter : Type 0 where
  pub name : String
  pub replicas : ℕ
  pub deploy : Bool

pub record CassandraSettings : Type 0 where
  pub install : Bool
  pub user : String
  pub password : String
  pub secret_name : String
  pub host : String
  pub default_keyspace : String
  pub consistency : String
  pub tls : Bool
  pub port : ℕ
  -- the data centers of the schema
  pub deployment_schema : Option (List SchemaDataCenter)

pub record TlsSettings : Type 0 where
  pub enabled : Bool
  pub optional : Bool
  pub root_ca_secret_name : String
  pub root_ca_file_name : String
  pub signed_crt_file_name : String
  pub private_key_file_name : String
  pub keystore_pass : String

pub record S3Backup : Type 0 where
  pub enabled : Bool
  pub secret_name : String
  pub bucket_name : String
  pub access_key_id : String
  pub access_key_secret : String
  pub endpoint_url : String
  pub ssl_verify : Bool
  pub ssl_secret_name : String
  pub ssl_cert : String

-- what the operator reads of the core library's requirements of a storage
pub record BackupStorage : Type 0 where
  pub empty_dir : Bool
  pub wait_pvc_bound : Bool

pub record BackupSpec : Type 0 where
  pub install : Bool
  pub legacy_mode : Bool
  pub storage_directory : String
  pub docker_image : String
  pub node_labels : StringMap
  pub backup_schedule : String
  pub granular_backup_schedule : String
  pub granular_backup_scheduled_dbs : List String
  pub eviction_policy : String
  pub granular_eviction_policy : String
  pub user : String
  pub secret_name : String
  pub storage : Option BackupStorage
  pub resources : Option Opaque
  pub priority_class_name : String
  pub s3 : S3Backup
  -- `TLS.BackupDaemonCASecretName`
  pub backup_daemon_ca_secret_name : String

pub record DbaasAdapterCredentials : Type 0 where
  pub username : String
  pub secret_name : String

pub record DbaasAggregatorCredentials : Type 0 where
  pub username : String
  pub physical_database_identifier : String
  pub dbaas_aggregator_registration_address : String
  pub secret_name : String

pub record DbaasSpec : Type 0 where
  pub install : Bool
  pub docker_image : String
  pub node_labels : StringMap
  pub resources : Option Opaque
  pub adapter : Option DbaasAdapterCredentials
  pub aggregator : Option DbaasAggregatorCredentials
  pub priority_class_name : String
  pub api_version : String
  pub multi_users : Bool
  pub topology_strategy : String
  -- `TLS.DbaasAdapterCASecretName`
  pub dbaas_adapter_ca_secret_name : String

pub record AwsKeyspaces : Type 0 where
  pub install : Bool
  pub secret_name : String
  pub host : String

pub record RobotTests : Type 0 where
  pub install : Bool
  pub docker_image : String
  pub resources : Option Opaque
  pub tags : String
  pub iteration : String
  pub prometheus_url : String
  pub args : List String
  pub replication_factor : ℕ
  pub attempts_number : ℕ
  pub node_labels : StringMap

-- `CassandraServiceSpec`, without the fields that only the core library reads
pub record ServicesSpec : Type 0 where
  pub cassandra : CassandraSettings
  pub wait_timeout : ℕ
  pub pod_security_context : Opaque
  -- `Policies.Tolerations`
  pub policies : Option Opaque
  pub tls : TlsSettings
  pub backup : BackupSpec
  pub dbaas : DbaasSpec
  pub robot_tests : RobotTests
  pub service_account_name : String
  pub ip_v6 : Bool
  pub gocql_connect_timeout : ℕ
  pub gocql_timeout : ℕ
  pub image_pull_policy : Opaque
  pub aws_keyspaces : AwsKeyspaces
  pub artifact_descriptor_version : String
  pub part_of : String
  pub managed_by : String
  pub instance_name : String
  pub delete_pvc_on_uninstall : Bool
