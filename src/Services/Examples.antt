-- ===== src/Services/Examples.antt =====
-- The theorems on the services at concrete inputs.
use qubership_cassandra_oper.Base.{
  String, true, false, Option, none, some, List, [], ◌∷◌, ◌≡◌, ◌⊎◌, ◌↔◌, refl, arith, ltb,
  if◌then◌else◌,
}
use qubership_cassandra_oper.Base.Maps.{StringMap, lookup, or_else}
use qubership_cassandra_oper.Base.Go.{done, panic, ok, fail, ◌>>◌}
use qubership_cassandra_oper.Kube.{Workload}
use qubership_cassandra_oper.Operator.Streams.{find_first}
use qubership_cassandra_oper.Services.Resource.{
  SchemaDataCenter, BackupStorage, DbaasAggregatorCredentials, ServicesSpec,
}
use qubership_cassandra_oper.Services.Platform.{
  Pod, Action, created_service, deleted_service, listed_pods, Platform, deref, obtain, execute,
}
use qubership_cassandra_oper.Services.Labels.{
  own_labels, extra_labels, fill_workload, create_service,
}
use qubership_cassandra_oper.Services.Labels.Selected.{non_empty, fill_workload-lookup}
use qubership_cassandra_oper.Services.Backup.Template.{backup_daemon}
use qubership_cassandra_oper.Services.Backup.Step.{
  BackupContext, storage_of, filled_backup_service, backup_service_step, backup_deployment_step,
  backup_labels, certified_daemon,
}
use qubership_cassandra_oper.Services.Dbaas.Template.{dbaas_name}
use qubership_cassandra_oper.Services.Dbaas.Step.{
  filled_dbaas_service, dbaas_service_step, dbaas_deployment_step,
}
use qubership_cassandra_oper.Services.Robot.{robot_deployment_step}
use qubership_cassandra_oper.Services.Created.{AllCreated}
use qubership_cassandra_oper.Services.Created.Deployable.{
  IsDeployable, deployment_steps-IsDeployable,
}
use qubership_cassandra_oper.Services.Created.Served.{Serves, backup_service_step-Serves}
use qubership_cassandra_oper.Services.Created.Advertised.{IsPublished, dbaas_service_step-Serves}
use qubership_cassandra_oper.Services.SshKeys.{
  key_commands, spread_keys, resolve_keys, new_keys, found_keys,
}
use qubership_cassandra_oper.Services.SshKeys.Spread.{
  AllTook, SomeGaveUp, listed, spread_keys-AllTook,
}
use qubership_cassandra_oper.Services.SshKeys.Stored.{inserted, Holds, resolve_keys-resolve_keys}
use qubership_cassandra_oper.Services.Build.{backup_service, ssh_keys, backup_steps}
use qubership_cassandra_oper.Services.Build.Order.{
  before_deployment, Provides, Planned, backup_steps-Provides,
}
use qubership_cassandra_oper.Services.Readiness.{
  Condition, ready, pending, broken, wait_for_cassandra_operator_ready, handed_on, requeued,
  reconcile,
}
use qubership_cassandra_oper.Services.Readiness.Decided.{
  decides, verdict, wait_for_cassandra_operator_ready-verdict,
}

-- a table that remembers, and pods of which one fails at the first command of its first round
abbrev platform : Platform
platform = record {
  secret = λ h n. ok (("username", "admin") ∷ ("password", "admin") ∷ []);
  config_map = λ h n. ok (("majorVersion", "4") ∷ []);
  connect = λ h c. none;
  select = λ h id. inserted id h;
  execute = λ h stmt args. none;
  generate_key_pair = λ h. ok ("ssh-rsa AAAA", "PRIVATE");
  store_secret = λ h n m. none;
  list_pods = λ h m. some [];
  exec_remote = λ h pod c. none;
  add_cred_hash = λ h names m. ok (("hash", "1") ∷ m);
  create_service = λ h s. none;
  delete_workload = λ h n. none;
  create = λ h w. none;
  wait_for_pods = λ h m. none;
  wait_for_tests = λ h n. none;
  panic_value = λ e m. e;
  optional_string = λ s d. s;
  max_int = λ a b. if ltb a b then b else a;
  public_host = "cloud";
  label_app = "app";
  label_microservice = "microservice";
  iterate = λ m. m;
}

abbrev two_centers : List SchemaDataCenter
two_centers =
    record { name = "dc1"; replicas = 2; deploy = false }
    ∷ record { name = "dc2"; replicas = 1; deploy = true }
    ∷ []

abbrev aggregator : DbaasAggregatorCredentials
aggregator = record {
  username = "cluster";
  physical_database_identifier = "";
  dbaas_aggregator_registration_address = "https://aggregator";
  secret_name = "dbaas.aggregator";
}

abbrev storage : BackupStorage
storage = record { empty_dir = false; wait_pvc_bound = true }

abbrev spec : ServicesSpec
spec = record {
  cassandra = record {
    install = true;
    user = "admin";
    password = "";
    secret_name = "cassandra-secret";
    host = "cassandra.ns";
    default_keyspace = "";
    consistency = "";
    tls = true;
    port = 9042;
    deployment_schema = some two_centers;
  };
  wait_timeout = 60;
  pod_security_context = "";
  policies = none;
  tls = record {
    enabled = true;
    optional = false;
    root_ca_secret_name = "ca";
    root_ca_file_name = "ca.crt";
    signed_crt_file_name = "tls.crt";
    private_key_file_name = "tls.key";
    keystore_pass = "";
  };
  backup = record {
    install = true;
    legacy_mode = true;
    storage_directory = "/opt/backup";
    docker_image = "backup:1";
    node_labels = [];
    backup_schedule = "0 0 * * *";
    granular_backup_schedule = "";
    granular_backup_scheduled_dbs = [];
    eviction_policy = "1h/1d";
    granular_eviction_policy = "";
    user = "backup";
    secret_name = "backup.secret";
    storage = some storage;
    resources = some "";
    priority_class_name = "";
    s3 = record {
      enabled = false;
      secret_name = "";
      bucket_name = "";
      access_key_id = "";
      access_key_secret = "";
      endpoint_url = "";
      ssl_verify = true;
      ssl_secret_name = "s3-tls";
      ssl_cert = "";
    };
    backup_daemon_ca_secret_name = "backup-tls";
  };
  dbaas = record {
    install = true;
    docker_image = "dbaas:1";
    node_labels = [];
    resources = some "";
    adapter = some (record { username = "adapter"; secret_name = "dbaas.adapter" });
    aggregator = some aggregator;
    priority_class_name = "high";
    api_version = "v2";
    multi_users = true;
    topology_strategy = "";
    dbaas_adapter_ca_secret_name = "dbaas-tls";
  };
  robot_tests = record {
    install = true;
    docker_image = "robot:1";
    resources = some "";
    tags = "smoke";
    iteration = "";
    prometheus_url = "";
    args = [];
    replication_factor = 1;
    attempts_number = 3;
    node_labels = [];
  };
  service_account_name = "services";
  ip_v6 = false;
  gocql_connect_timeout = 10;
  gocql_timeout = 10;
  image_pull_policy = "Always";
  aws_keyspaces = record { install = false; secret_name = ""; host = "" };
  artifact_descriptor_version = "1.0";
  part_of = "";
  managed_by = "";
  instance_name = "services";
  delete_pvc_on_uninstall = false;
}

abbrev context : BackupContext
context = record {
  pvc_names = λ v. some ("backup-data-0" ∷ []);
  node_labels = λ v. some ((("zone", "a") ∷ []) ∷ []);
}

deployment_steps-IsDeployable_example :
    AllCreated IsDeployable (backup_deployment_step platform spec "ns" context []).1
    × AllCreated IsDeployable (dbaas_deployment_step platform spec "ns" []).1
    × AllCreated IsDeployable (robot_deployment_step platform spec "ns" []).1
deployment_steps-IsDeployable_example =
    deployment_steps-IsDeployable platform spec "ns" context [] tt

-- the events of the service's step
abbrev after_service : List Action
after_service =
    created_service (filled_backup_service platform spec "ns") ∷ deleted_service backup_daemon ∷ []

backup_service_step_run : backup_service_step platform spec "ns" [] ≡ (done none, after_service)
unfolding backup_service_step create_service ◌>>◌
backup_service_step_run = refl

backup_service_step-Serves_example :
    (◌≡◌ {A = Option String} none none)
    × (after_service ≡ after_service)
    × AllCreated
        (Serves (filled_backup_service platform spec "ns"))
        (backup_deployment_step platform spec "ns" context after_service).1
backup_service_step-Serves_example =
    backup_service_step-Serves platform spec "ns" context [] after_service none
      backup_service_step_run tt

abbrev after_adapter : List Action
after_adapter =
    created_service (filled_dbaas_service platform spec "ns" aggregator)
    ∷ deleted_service dbaas_name
    ∷ []

dbaas_service_step_run : dbaas_service_step platform spec "ns" [] ≡ (done none, after_adapter)
unfolding dbaas_service_step create_service deref ◌>>◌
dbaas_service_step_run = refl

dbaas_service_step-Serves_example :
    (◌≡◌ {A = Option String} none none)
    × (after_adapter ≡ after_adapter)
    × AllCreated
        (IsPublished platform spec "ns" aggregator)
        (dbaas_deployment_step platform spec "ns" after_adapter).1
dbaas_service_step-Serves_example =
    dbaas_service_step-Serves platform spec "ns" aggregator [] after_adapter none refl
      dbaas_service_step_run tt

abbrev keys : String × String
keys = ("ssh-rsa AAAA", "PRIVATE")

abbrev pod : Pod
pod = record { name = "cassandra0-0"; namespace = "ns"; container = "cassandra0" }

-- the pod fails once, at the first command
abbrev unsteady : Platform
unsteady = record platform {
  list_pods = λ h m. some (pod ∷ []);
  exec_remote =
      λ h p c. elim h [ [] ↦ none | a ∷ r ↦ elim a [ listed_pods m ↦ some "timeout" | _ ↦ none ] ];
}

spread_keys-AllTook_example :
    ((h' : List Action) × AllTook unsteady 5 (key_commands keys.0) (pod ∷ []) (listed keys []) h'
      × (spread_keys unsteady 5 keys [] ≡ (done none, h')))
    ⊎ ((p : String) × (h' : List Action) × SomeGaveUp unsteady 5
          (key_commands keys.0)
          (pod ∷ [])
          (listed keys [])
          h'
        × (spread_keys unsteady 5 keys [] ≡ (panic p, h')))
spread_keys-AllTook_example =
    spread_keys-AllTook unsteady 5 keys (pod ∷ []) [] (omega arith) refl refl

-- the first run generates the keys, the second finds them
abbrev first_run : List Action
first_run = (resolve_keys platform "'dc1': '2'" []).1

abbrev second_run : List Action
second_run = (resolve_keys platform "'dc1': '3'" first_run).1

first_keys : resolve_keys platform "'dc1': '2'" [] ≡ (done keys, first_run)
unfolding resolve_keys new_keys execute obtain inserted ◌>>◌
first_keys = refl

second_keys : resolve_keys platform "'dc1': '3'" first_run ≡ (done keys, second_run)
unfolding resolve_keys new_keys found_keys execute obtain inserted ◌>>◌
second_keys = refl

resolve_keys-resolve_keys_example : Holds keys first_run × (keys ≡ keys) × Holds keys second_run
resolve_keys-resolve_keys_example =
    resolve_keys-resolve_keys platform "'dc1': '2'" "'dc1': '3'" [] first_run first_run second_run
      keys keys (λ h id. refl) first_keys refl refl second_keys

backup_steps_provided : Provides context (before_deployment (backup_steps spec storage))
unfolding backup_steps
backup_steps_provided = (("backup-data-0", [], refl), (((("zone", "a") ∷ []) ∷ [], refl), tt))

backup_steps-Provides_example :
    ((claimed : String × StringMap) × (storage_of context storage [] ≡ (done claimed, [])))
    × Planned backup_service (before_deployment (backup_steps spec storage))
    × (Planned ssh_keys (before_deployment (backup_steps spec storage))
        ↔ (spec.aws_keyspaces.install ≡ false))
backup_steps-Provides_example = backup_steps-Provides spec storage context [] backup_steps_provided

abbrev workload : Workload
workload = certified_daemon platform spec "ns" ("", []) "" [] []

fill_workload-lookup_example :
    (lookup "app.kubernetes.io/name" (fill_workload spec backup_labels workload).labels
      ≡ or_else (non_empty (lookup "app.kubernetes.io/name" (extra_labels backup_labels))) (
          or_else
            (lookup "app.kubernetes.io/name" (own_labels spec))
            (lookup "app.kubernetes.io/name" workload.labels)))
    × (lookup "app.kubernetes.io/name" (fill_workload spec backup_labels workload).pod_labels
        ≡ or_else (non_empty (lookup "app.kubernetes.io/name" (extra_labels backup_labels))) (
            or_else
              (lookup "app.kubernetes.io/name" (own_labels spec))
              (lookup "app.kubernetes.io/name" workload.pod_labels)))
fill_workload-lookup_example =
    fill_workload-lookup spec backup_labels workload "app.kubernetes.io/name"

abbrev conditions : List (Option Condition)
conditions =
    none
    ∷ some (record { type = "In progress"; status = some true })
    ∷ some (record { type = "failed"; status = some false })
    ∷ some (record { type = "successful"; status = some true })
    ∷ []

abbrev common : String
common = "reconciled"

wait_for_cassandra_operator_ready-verdict_example :
    (reconcile (wait_for_cassandra_operator_ready (λ s. s) (ok (some conditions) ∷ [])) common
      ≡ elim (verdict (λ s. s) (find_first (decides (λ s. s)) conditions)) [
        | ready ↦ handed_on common
        | pending ↦ reconcile (wait_for_cassandra_operator_ready (λ s. s) []) common
        | broken _ _ ↦ requeued 15
      ])
    × (reconcile (wait_for_cassandra_operator_ready (λ s. s) (fail "no" ∷ [])) common ≡ requeued 15)
    × (reconcile (wait_for_cassandra_operator_ready (λ s. s) (ok none ∷ [])) common ≡ requeued 15)
    × (reconcile (wait_for_cassandra_operator_ready (λ s. s) []) common ≡ requeued 15)
wait_for_cassandra_operator_ready-verdict_example =
    wait_for_cassandra_operator_ready-verdict (λ s. s) common conditions [] "no"
