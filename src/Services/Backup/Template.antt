-- ===== src/Services/Backup/Template.antt =====
-- pkg/backup/templates.go: the deployment of the backup daemon.
use qubership_cassandra_oper.Base.{
  ℕ, String, Bool, false, none, some, List, [], ◌∷◌, ◌++◌, if◌then◌else◌,
}
use qubership_cassandra_oper.Base.Maps.{StringMap}
use qubership_cassandra_oper.Kube.{
  Opaque, EnvVar, VolumeMount, claim, empty_dir, Volume, http_get, Probe, Workload, hardened,
  writable_mount,
}

abbrev pub backup_daemon : String
backup_daemon = "cassandra-backup-daemon"

abbrev pub backup_storage : String
backup_storage = "backup-storage"

abbrev pub daemon_labels : StringMap
daemon_labels = ("name", backup_daemon) ∷ []

-- the arguments of `LegacyBackupDeploymentTemplate`
pub record BackupArgs : Type 0 where
  pub pvc_name : String
  pub namespace : String
  pub image : String
  pub node_selector : StringMap
  pub resources : Opaque
  pub env : List EnvVar
  pub storage_directory : String
  pub emptied : Bool
  pub port : ℕ
  pub uri_scheme : String
  pub volume_mounts : List VolumeMount
  pub volumes : List Volume

abbrev pub health_probe : ℕ → String → Probe
health_probe port uri_scheme = record {
  handler = http_get "/health" port uri_scheme;
  initial_delay_seconds = 5;
  timeout_seconds = 30;
  period_seconds = 7;
  success_threshold = 1;
  failure_threshold = 12;
}

abbrev pub emptied_volume : String → Volume
emptied_volume name = record { name = name; source = empty_dir none }

unfoldable pub legacy_backup_mounts : String → List VolumeMount
legacy_backup_mounts storage_directory =
    writable_mount backup_storage storage_directory
    ∷ writable_mount "cassandra-home" "/opt/cassandra"
    ∷ writable_mount "host-file" "/opt/backup/cassandra_hosts"
    ∷ writable_mount "ansible-home" "/home/cassandra"
    ∷ writable_mount "tmp" "/tmp"
    ∷ []

unfoldable pub legacy_backup_volumes : Bool → String → List Volume
legacy_backup_volumes emptied pvc_name =
    record { name = backup_storage; source = if emptied then empty_dir none else claim pvc_name }
    ∷ emptied_volume "cassandra-home"
    ∷ emptied_volume "ansible-home"
    ∷ emptied_volume "host-file"
    ∷ emptied_volume "tmp"
    ∷ []

unfoldable pub legacy_backup_deployment_template : BackupArgs → Workload
unfolding legacy_backup_mounts legacy_backup_volumes
legacy_backup_deployment_template a = record {
  name = backup_daemon;
  namespace = a.namespace;
  labels = daemon_labels;
  replicas = 1;
  match_labels = daemon_labels;
  service_name = "";
  pod_labels = daemon_labels;
  pod_annotations = [];
  pod = record {
    termination_grace_period_seconds = none;
    affinity = none;
    host_network = false;
    priority_class_name = "";
    service_account_name = "";
    node_selector = a.node_selector;
    tolerations = "";
    security_context = "";
    container = record {
      name = backup_daemon;
      image = a.image;
      image_pull_policy = "";
      security_context = some hardened;
      command = [];
      args = [];
      ports = record { name = "http"; container_port = a.port; protocol = "TCP" } ∷ [];
      resources = a.resources;
      pre_stop = [];
      env = a.env;
      liveness_probe = some (health_probe a.port a.uri_scheme);
      readiness_probe = some (health_probe a.port a.uri_scheme);
      volume_mounts = legacy_backup_mounts a.storage_directory ++ a.volume_mounts;
    };
    sidecars = [];
    volumes = legacy_backup_volumes a.emptied a.pvc_name ++ a.volumes;
  };
}
