-- ===== src/Services/Robot.antt =====
-- pkg/robotTests: the deployment of the robot tests.
use qubership_cassandra_oper.Base.{
  String, false, Option, none, some, List, [], ◌∷◌, ◌++◌, ◌<>◌, if◌then◌else◌,
}
use qubership_cassandra_oper.Base.Decimal.{show_ℕ}
use qubership_cassandra_oper.Base.Maps.{StringMap, insert}
use qubership_cassandra_oper.Base.Go.{
  Go, pure, raise, ask, ◌>>=◌, ◌>>◌, case_option, case_result, panic_error,
}
use qubership_cassandra_oper.Operator.Streams.{find_first}
use qubership_cassandra_oper.Kube.{
  Opaque, EnvVar, plain, field_ref, VolumeMount, empty_dir, Volume, Workload, hardened,
  writable_mount,
}
use qubership_cassandra_oper.Services.Resource.{SchemaDataCenter, ServicesSpec}
use qubership_cassandra_oper.Services.Platform.{
  Action, hashed, deleted_workload, waited_tests, Platform, deref, demand,
}
use qubership_cassandra_oper.Services.Labels.{BasicLabels, fill_workload, create_workload}
use qubership_cassandra_oper.Services.Pods.{
  tls_client_update, get_http_port, secret_volumes, secret_mounts,
}

abbrev pub robot_name : String
robot_name = "robot-tests"

abbrev pub robot_labels : StringMap
robot_labels = ("name", robot_name) ∷ []

-- the arguments of `RobotTemplate`
pub record RobotArgs : Type 0 where
  pub namespace : String
  pub image : String
  pub resources : Opaque
  pub node_selector : StringMap
  pub env : List EnvVar
  pub args : List String
  pub volume_mounts : List VolumeMount
  pub volumes : List Volume

abbrev pub robot_own_volumes : List Volume
robot_own_volumes =
    record { name = "output"; source = empty_dir none }
    ∷ record { name = "tmp"; source = empty_dir (some 32) }
    ∷ []

abbrev pub robot_own_mounts : List VolumeMount
robot_own_mounts = writable_mount "output" "/opt/robot/output" ∷ writable_mount "tmp" "/tmp" ∷ []

unfoldable pub robot_template : RobotArgs → Workload
robot_template a = record {
  name = robot_name;
  namespace = a.namespace;
  labels = ("app", "cassandra-cluster") ∷ ("microservice", robot_name) ∷ ("name", robot_name) ∷ [];
  replicas = 1;
  match_labels = robot_labels;
  service_name = "";
  pod_labels = robot_labels;
  pod_annotations = [];
  pod = record {
    termination_grace_period_seconds = none;
    affinity = none;
    host_network = false;
    priority_class_name = "";
    service_account_name = "";
    node_selector = a.node_selector;
    tolerations = "";
    security_context = "";
    container = record {
      name = robot_name;
      image = a.image;
      image_pull_policy = "";
      security_context = some hardened;
      command = [];
      args = a.args;
      ports = [];
      resources = a.resources;
      pre_stop = [];
      env = a.env;
      liveness_probe = none;
      readiness_probe = none;
      volume_mounts = a.volume_mounts ++ robot_own_mounts;
    };
    sidecars = [];
    volumes = a.volumes ++ robot_own_volumes;
  };
}

abbrev pub robot_basic_labels : BasicLabels
robot_basic_labels = record {
  app_name = robot_name;
  app_component = "operator";
  app_technology = "python";
  app_part_of = "";
  app_managed_by = "";
  app_managed_by_operator = "";
}

module _ (k : Platform) (spec : ServicesSpec) (namespace : String) where
  -- the secrets; the adapter's is read only where the adapter is installed
  unfoldable pub robot_secrets : Go Action StringMap
  unfolding insert
  robot_secrets =
      let cassandra = insert spec.cassandra.secret_name "/var/run/secrets/cassandra" [] in
      let secrets =
        if spec.backup.install
        then insert spec.backup.secret_name "/var/run/secrets/backup" cassandra
        else cassandra in
      if spec.dbaas.install
      then (deref spec.dbaas.adapter >>= λ adapter.
          pure (insert adapter.secret_name "/var/run/secrets/dbaas-adapter" secrets))
      else pure secrets

  -- the first data center that is deployed; the nil interface is no data center
  unfoldable pub current_data_center : List SchemaDataCenter → Go Action SchemaDataCenter
  unfolding find_first
  current_data_center dcs =
      case_option (find_first (λ (dc : SchemaDataCenter). dc.deploy) dcs)
        (raise "interface conversion: interface {} is nil, not *v1alpha1.DataCenter") pure

  unfoldable pub robot_envs : SchemaDataCenter → List EnvVar
  robot_envs current_dc =
      (field_ref "NAMESPACE" "metadata.namespace"
        ∷ plain "CASSANDRA_HOST" (k.optional_string spec.cassandra.host ("cassandra." <> namespace))
        ∷ plain "CASSANDRA_PORT" (k.optional_string (show_ℕ spec.cassandra.port) "9042")
        ∷ plain "TEST_KEYSPACES_REPLICATION_FACTOR" (show_ℕ spec.robot_tests.replication_factor)
        ∷ plain "ATTEMPTS_NUMBER" (show_ℕ spec.robot_tests.attempts_number)
        ∷ plain "PROMETHEUS_URL" spec.robot_tests.prometheus_url
        ∷ plain "TAGS" spec.robot_tests.tags
        ∷ plain "WAIT_TIMEOUT" (show_ℕ spec.wait_timeout)
        ∷ plain "DC_NAME" current_dc.name
        ∷ plain "DBAAS_ADAPTER_API_VERSION" spec.dbaas.api_version
        ∷ plain "PORT" (show_ℕ (get_http_port spec.tls.enabled))
        ∷ plain "CONFIG_NAME" "cassandra-tests-config"
        ∷ plain "SUPPLEMENTARY_CONFIG_NAME" "supplementary-tests-config"
        ∷ plain "STATUS_CUSTOM_RESOURCE_PATH"
            ("apps/v1/" <> namespace <> "/deployments/robot-tests")
        ∷ plain "STATUS_WRITING_ENABLED" "true"
        ∷ [])
      ++ (if spec.backup.install
          then plain "BACKUP_HOST" ("cassandra-backup-daemon." <> namespace <> ".svc") ∷ []
          else [])
      ++ (if spec.dbaas.install
          then plain "DBAAS_HOST" ("dbaas-cassandra-adapter." <> namespace <> ".svc") ∷ []
          else [])

  unfoldable pub robot_workload : StringMap → SchemaDataCenter → Opaque → Workload
  robot_workload secrets current_dc resources = robot_template (record {
    namespace = namespace;
    image = spec.robot_tests.docker_image;
    resources = resources;
    node_selector = spec.robot_tests.node_labels;
    env = robot_envs current_dc;
    args = spec.robot_tests.args;
    volume_mounts = secret_mounts (k.iterate secrets);
    volumes = secret_volumes (k.iterate secrets);
  })

  abbrev pub certified_robot : StringMap → SchemaDataCenter → Opaque → StringMap → Workload
  certified_robot secrets current_dc resources annotations =
      record (robot_workload secrets current_dc resources) {
        pod_annotations = annotations;
        pod =
            tls_client_update "/usr/ssl/" spec.tls
              (robot_workload secrets current_dc resources).pod;
      }

  -- what is created in the end
  abbrev pub filled_robot : StringMap → SchemaDataCenter → Opaque → StringMap → Workload
  filled_robot secrets current_dc resources annotations =
      fill_workload spec robot_basic_labels
        (certified_robot secrets current_dc resources annotations)

  unfoldable pub deploy_robot : Workload → Go Action (Option String)
  deploy_robot dc = do
    demand k (λ h. k.delete_workload h dc.name) (deleted_workload dc.name)
        "RobotTests deployment config processing failed"
    err ← create_workload k spec dc robot_basic_labels
    panic_error k.panic_value err "RobotTests deployment config processing failed"
    demand k (λ h. k.wait_for_tests h dc.name) (waited_tests dc.name) "RobotTests failed"
    pure none

  -- `Execute`
  unfoldable pub robot_deployment_step : Go Action (Option String)
  robot_deployment_step = do
    secrets ← robot_secrets
    dcs ← deref spec.cassandra.deployment_schema
    current_dc ← current_data_center dcs
    resources ← deref spec.robot_tests.resources
    let dc = robot_workload secrets current_dc resources
    let names = spec.cassandra.secret_name ∷ []
    hash ← ask (λ h. k.add_cred_hash h names dc.pod_annotations) (hashed names)
    case_result hash (λ e. pure (some e))
        λ annotations. deploy_robot (certified_robot secrets current_dc resources annotations)
