-- ===== src/Services/Backup/Step.antt =====
-- pkg/backup/deployment.go and pkg/backup/backup_service_step.go: the steps of the backup daemon.
use qubership_cassandra_oper.Base.{
  ℕ, zero, suc, String, Bool, true, false, Option, none, some, List, [], ◌∷◌, ◌++◌, ◌<>◌,
  if◌then◌else◌,
}
use qubership_cassandra_oper.Base.Decimal.{show_ℕ}
use qubership_cassandra_oper.Base.Maps.{StringMap, lookup, insert}
use qubership_cassandra_oper.Base.Strings.{join}
use qubership_cassandra_oper.Base.Go.{
  Go, Result, pure, raise, emit, ask, ◌>>=◌, ◌>>◌, case_option, case_result, panic_error,
}
use qubership_cassandra_oper.Kube.{
  EnvVar, plain, secret_volume, PodSpec, Workload, SimpleService, Opaque,
}
use qubership_cassandra_oper.Services.Resource.{
  SchemaDataCenter, S3Backup, BackupStorage, ServicesSpec,
}
use qubership_cassandra_oper.Services.Platform.{
  Action, read_config_map, hashed, deleted_service, deleted_workload, waited, Platform, deref,
  demand,
}
use qubership_cassandra_oper.Services.Labels.{
  BasicLabels, fill_workload, fill_service, create_workload, create_service,
}
use qubership_cassandra_oper.Services.Pods.{
  extend_pod, tls_client_update, tls_server_update, get_http_port, get_uri_scheme, secret_volumes,
  secret_mounts,
}
use qubership_cassandra_oper.Services.Backup.Template.{
  backup_daemon, daemon_labels, legacy_backup_deployment_template,
}

-- what the steps before left in the context, under each variable: names of claims, labels of nodes
pub record BackupContext : Type 0 where
  pub pvc_names : String → Option (List String)
  pub node_labels : String → Option (List StringMap)

abbrev pub pvc_variable : String
pvc_variable = "backup-data-" <> show_ℕ 0

abbrev pub nodes_variable : String
nodes_variable = "pvNodeNames" <> show_ℕ 0

abbrev pub backup_labels : BasicLabels
backup_labels = record {
  app_name = backup_daemon;
  app_component = "backend";
  app_technology = "python";
  app_part_of = "cassandra-services";
  app_managed_by = "operator";
  app_managed_by_operator = "cassandra-services-operator";
}

-- `m[k] = v` where the test holds
abbrev pub insert_if : Bool → String → String → StringMap → StringMap
insert_if b k v m = if b then insert k v m else m

-- the secrets with the folders of their mounts: of two secrets with one name the later folder stays
unfoldable pub backup_secrets : ServicesSpec → StringMap
unfolding insert
backup_secrets spec =
    insert_if spec.backup.s3.enabled spec.backup.s3.secret_name "/var/run/secrets/s3" (
      insert_if spec.aws_keyspaces.install spec.aws_keyspaces.secret_name "/var/run/secrets/aws" (
        insert "ssh-keys" "/var/run/secrets/ssh" (
          insert spec.backup.secret_name "/var/run/secrets/backup"
            (insert spec.cassandra.secret_name "/var/run/secrets/cassandra" []))))

-- the hosts of a data center, with the rounds that are left
replica_hosts : String → ℕ → ℕ → List String
replica_hosts namespace zero replica = []
replica_hosts namespace (suc left) replica =
    ("cassandra" <> show_ℕ replica <> "-0.cassandra." <> namespace <> ".svc.cluster.local")
    ∷ replica_hosts namespace left (suc replica)

unfoldable pub backup_hosts : String → List SchemaDataCenter → List String
unfolding replica_hosts
backup_hosts namespace [] = []
backup_hosts namespace (dc ∷ dcs) =
    replica_hosts namespace dc.replicas 0 ++ backup_hosts namespace dcs

unfoldable pub s3_envs : S3Backup → List EnvVar
s3_envs s3 =
    if s3.enabled
    then (plain "S3_ENABLED" "true"
        ∷ plain "S3_BUCKET" s3.bucket_name
        ∷ plain "S3_URL" s3.endpoint_url
        ∷ [])
      ++ (if s3.ssl_verify then plain "S3_CERTS_PATH" "/s3Certs" ∷ [] else [])
    else []

-- the environment without AWS keyspaces
unfoldable pub backup_envs : ServicesSpec → List String → StringMap → List EnvVar
unfolding s3_envs join
backup_envs spec hosts version =
    (plain "CASSANDRA_HOSTS" (join " " hosts)
      ∷ plain "BACKUP_SCHEDULE" spec.backup.backup_schedule
      ∷ plain "GRANULAR_SCHEDULE" spec.backup.granular_backup_schedule
      ∷ plain "SCHEDULED_DBS" (join "," spec.backup.granular_backup_scheduled_dbs)
      ∷ plain "EVICTION_POLICY" spec.backup.eviction_policy
      ∷ plain "GRANULAR_EVICTION_POLICY" spec.backup.granular_eviction_policy
      ∷ plain "STORAGE" spec.backup.storage_directory
      ∷ plain "CASSANDRA_MAJOR_VERSION"
          (elim (lookup "majorVersion" version) [ none ↦ "" | some v ↦ v ])
      ∷ plain "CONNECT_TIMEOUT" (show_ℕ spec.gocql_connect_timeout)
      ∷ plain "REQUEST_TIMEOUT" (show_ℕ spec.gocql_timeout)
      ∷ [])
    ++ s3_envs spec.backup.s3

abbrev pub aws_envs : List EnvVar
aws_envs = plain "EXTERNAL_RESTORE" "true" ∷ plain "AWS_RESTORE" "true" ∷ []

unfoldable pub ip_v6_envs : Bool → List EnvVar
ip_v6_envs ip_v6 = if ip_v6 then plain "BROADCAST_ADDRESS" "::" ∷ [] else []

-- the certificate of the storage, whether or not the storage itself is enabled
unfoldable pub s3_update : S3Backup → PodSpec → PodSpec
unfolding extend_pod
s3_update s3 pod =
    if s3.ssl_verify
    then extend_pod
        (record { name = "s3-ssl-certs"; source = secret_volume s3.ssl_secret_name none } ∷ [])
        (record { name = "s3-ssl-certs"; mount_path = "/s3Certs"; read_only = true } ∷ []) [] pod
    else pod

-- `ctx.Get(..).([]string)[0]`, and the first of the nodes' labels, if there is one
unfoldable pub first_name : List String → Go Action String
first_name [] = raise "runtime error: index out of range [0] with length 0"
first_name (name ∷ names) = pure name

abbrev pub first_labels : List StringMap → StringMap
first_labels [] = []
first_labels (m ∷ ms) = m

unfoldable pub stored : {A : Type 0} → Option A → Go Action A
stored o = case_option o (raise "interface conversion: interface {} is nil") pure

unfoldable pub storage_of : BackupContext → BackupStorage → Go Action (String × StringMap)
unfolding first_name stored
storage_of ctx storage = if storage.empty_dir then pure ("", []) else do
  names ← stored (ctx.pvc_names pvc_variable)
  name ← first_name names
  node_labels ← stored (ctx.node_labels nodes_variable)
  pure (name, first_labels node_labels)

module _ (k : Platform) (spec : ServicesSpec) (namespace : String) where
  -- the environment of the daemon, or the error of the config map
  unfoldable pub daemon_envs : List SchemaDataCenter → Go Action (Result (List EnvVar))
  daemon_envs dcs = if spec.aws_keyspaces.install then pure (Result.ok aws_envs) else do
    version ←
        ask (λ h. k.config_map h "cassandra-major-version")
          (read_config_map "cassandra-major-version")
    case_result version (λ e. pure (Result.fail e))
        λ cm. pure (Result.ok (backup_envs spec (backup_hosts namespace dcs) cm))

  -- the deployment before the hash of the secret
  unfoldable pub daemon_workload : String × StringMap → Opaque → List EnvVar → Workload
  daemon_workload storage resources envs = legacy_backup_deployment_template (record {
    pvc_name = storage.0;
    namespace = namespace;
    image = spec.backup.docker_image;
    node_selector = storage.1;
    resources = resources;
    env = envs ++ ip_v6_envs spec.ip_v6;
    storage_directory = spec.backup.storage_directory;
    emptied = elim spec.backup.storage [ none ↦ false | some s ↦ s.empty_dir ];
    port = get_http_port spec.tls.enabled;
    uri_scheme = get_uri_scheme spec.tls.enabled;
    volume_mounts = secret_mounts (k.iterate (backup_secrets spec));
    volumes = secret_volumes (k.iterate (backup_secrets spec));
  })

  -- the pod with all its certificates
  unfoldable pub certified : PodSpec → PodSpec
  certified pod =
      tls_server_update spec.tls spec.backup.backup_daemon_ca_secret_name "/certs/"
        (tls_client_update "/usr/ssl/" spec.tls (s3_update spec.backup.s3 pod))

  abbrev pub certified_daemon : String × StringMap → Opaque → List EnvVar → StringMap → Workload
  certified_daemon claimed resources envs annotations =
      record (daemon_workload claimed resources envs) {
        pod_annotations = annotations;
        pod = certified (daemon_workload claimed resources envs).pod;
      }

  -- what is created in the end
  abbrev pub filled_daemon : String × StringMap → Opaque → List EnvVar → StringMap → Workload
  filled_daemon claimed resources envs annotations =
      fill_workload spec backup_labels (certified_daemon claimed resources envs annotations)

  -- the old deployment goes, the new one comes and is waited for; a failed deletion is returned
  unfoldable pub deploy_daemon : Workload → Go Action (Option String)
  deploy_daemon dc = do
    err ← ask (λ h. k.delete_workload h dc.name) (deleted_workload dc.name)
    case_option err
        (do
          err' ← create_workload k spec dc backup_labels
          panic_error k.panic_value err' "Error happened on processing backup deployment config"
          demand k (λ h. k.wait_for_pods h daemon_labels) (waited daemon_labels)
              "Pods waiting failed"
          pure none)
        (λ e. pure (some e))

  -- `Execute`
  unfoldable pub backup_deployment_step : BackupContext → Go Action (Option String)
  backup_deployment_step ctx = do
    dcs ← deref spec.cassandra.deployment_schema
    envs ← daemon_envs dcs
    case_result envs (λ e. pure (some e))
        λ found. do
          storage ← deref spec.backup.storage
          claimed ← storage_of ctx storage
          resources ← deref spec.backup.resources
          let dc = daemon_workload claimed resources found
          let secrets = spec.cassandra.secret_name ∷ []
          hash ← ask (λ h. k.add_cred_hash h secrets dc.pod_annotations) (hashed secrets)
          case_result hash (λ e. pure (some e))
              λ annotations. deploy_daemon (certified_daemon claimed resources found annotations)

  abbrev pub backup_service : SimpleService
  backup_service = record {
    name = backup_daemon;
    labels =
        (k.label_app, "cassandra-cluster")
        ∷ (k.label_microservice, backup_daemon)
        ∷ ("name", backup_daemon)
        ∷ [];
    selectors = daemon_labels;
    ports = ("http", get_http_port spec.tls.enabled) ∷ [];
    namespace = namespace;
  }

  -- what is created in the end
  abbrev pub filled_backup_service : SimpleService
  filled_backup_service = fill_service spec backup_labels backup_service

  -- `Execute` of the service's step; the answer of the removal is not looked at
  unfoldable pub backup_service_step : Go Action (Option String)
  backup_service_step = do
    emit (deleted_service backup_daemon)
    err ← create_service k spec backup_service backup_labels
    panic_error k.panic_value err "Backup service creation failed"
    pure none
