-- ===== src/Operator/ReplicaExamples.antt =====
-- The theorems on replicas, their configuration and the smoke tests at concrete inputs.
use qubership_cassandra_oper.Base.{
  ℕ, String, true, false, Option, none, some, List, [], ◌∷◌, ◌++◌, ◌≡◌, ◌⊎◌, refl, ◌==◌,
}
use qubership_cassandra_oper.Base.Decimal.{pos}
use qubership_cassandra_oper.Base.Maps.{lookup, insert, insert_all, Distinct, or_else}
use qubership_cassandra_oper.Base.Go.{Outcome, done, panic, ok, ◌>>◌}
use qubership_cassandra_oper.Kube.{Container, Workload, plain}
use qubership_cassandra_oper.Kube.Variables.{env_var}
use qubership_cassandra_oper.Operator.StatefulSets.{plain_envs}
use qubership_cassandra_oper.Kube.Mounted.{IsMounted}
use qubership_cassandra_oper.Operator.DataCenters.{DataCenter, deployed}
use qubership_cassandra_oper.Operator.Services.{LabelKeys, ServiceSpec}
use qubership_cassandra_oper.Operator.StatefulSets.{Tls, Spec, Context, cassandra_envs}
use qubership_cassandra_oper.Operator.Template.{
  TemplateSpec, ReplicaArgs, claims, replica_workload, cassandra_replica_template,
}
use qubership_cassandra_oper.Operator.Template.Deployable.{
  IsPlaced, cassandra_replica_template-IsPlaced,
}
use qubership_cassandra_oper.Operator.Template.Certificates.{
  FindsAll, cassandra_replica_template-FindsAll,
}
use qubership_cassandra_oper.Operator.Template.Registration.{
  ServiceRegistration, dc_names, consul_service_registration_cast, after_casts, repeated, Checked,
  consul_service_registration_cast-checks,
}
use qubership_cassandra_oper.Operator.Configuration.{
  ConfigEvent, polled, ConfigPlatform, text_of, parse_configuration, store_configuration,
  configuration_step,
}
use qubership_cassandra_oper.Operator.Configuration.Merged.{
  ReadsBack, stored_config, configuration_step-lookup,
}
use qubership_cassandra_oper.Operator.Smoke.{
  SmokeEvent, got_session, SmokeDriver, MetricCollector, prepare_schema, statement_after,
  test_statement, perform_test, metrics_round,
}
use qubership_cassandra_oper.Operator.Smoke.Recovered.{Answers, reported, metrics_round-recovers}
use qubership_cassandra_oper.Operator.Smoke.Flag.{Tested, perform_test-Tested}

abbrev dc : DataCenter
dc = record {
  deploy = true;
  name = "dc1";
  cluster_domain = "cluster.local";
  replicas = 1;
  seeds = 1;
  seed_list = none;
  remove_nodes = none;
  storage = [];
  racks = [];
  broadcast_address = [];
  listen_address = [];
  rpc_broadcast_address = [];
  rpc_listen_address = [];
}

abbrev tls : Tls
tls = record {
  enabled = true;
  root_ca_file_name = "ca.crt";
  signed_crt_file_name = "tls.crt";
  private_key_file_name = "tls.key";
  keystore_pass = "secret";
}

abbrev sets : Spec
sets = record {
  data_centers = dc ∷ [];
  secret_name = "cassandra-secret";
  envs = [];
  tls = tls;
  reaper = record { install = true; secret_name = "reaper"; type = "rest"; port = 8080; envs = [] };
  namespace = "ns";
}

abbrev context : Context
context = record {
  seeds = "cassandra0-0.cassandra.ns.svc.cluster.local";
  node_labels = λ i. [];
  pvc_names = λ i s. [];
  truststore_password = "secret";
}

abbrev reaper_container : Container
reaper_container = record {
  name = "cassandra-reaper";
  image = "reaper:1";
  image_pull_policy = "";
  security_context = none;
  command = [];
  args = [];
  ports = [];
  resources = "";
  pre_stop = [];
  env = [];
  liveness_probe = none;
  readiness_probe = none;
  volume_mounts = [];
}

abbrev template_spec : TemplateSpec
template_spec = record {
  tls = tls;
  root_ca_secret_name = "ca";
  part_of = "cassandra";
  managed_by = "operator";
  image_pull_policy = "";
  commitlog_archiving = true;
  affinity = none;
  priority_class_name = "";
  service_account_name = "cassandra";
}

abbrev args : ReplicaArgs
args = record {
  cassandra_envs = cassandra_envs sets context dc ++ plain "CASSANDRA_RACK" "rack1" ∷ [];
  reaper_container = reaper_container;
  docker_image = "cassandra:4.1.0";
  pod_security_context = "";
  replica_number = pos 0;
  namespace = "ns";
  node_selector = [];
  tolerations = "";
  resources = "";
  data_center_name = "dc1";
  liveness_retries = 15;
  pvc_mounts =
      (
        "cassandra-data-dc0-0",
        some (record { name = "data"; mount_path = "/var/lib/cassandra/data"; read_only = false }),
      )
      ∷ [];
  host_network = false;
}

abbrev keys : LabelKeys
keys = record { app = "app"; microservice = "microservice" }

abbrev services : ServiceSpec
services = record { data_centers = dc ∷ []; instance_name = "cassandra"; reaper_port = 8080 }

abbrev replica : Workload
replica =
    replica_workload (λ image. "4.1.0") template_spec args
      (elim (claims args.pvc_mounts) [ panic p ↦ ([], []) | done claimed ↦ claimed ])

replica_returned : cassandra_replica_template (λ image. "4.1.0") template_spec args ≡ done replica
unfolding cassandra_replica_template claims
replica_returned = refl

cassandra_replica_template-IsPlaced_example :
    IsMounted replica.pod × IsPlaced template_spec keys services dc replica
cassandra_replica_template-IsPlaced_example =
    cassandra_replica_template-IsPlaced (λ image. "4.1.0") template_spec args keys services dc
      replica refl refl replica_returned

cassandra_replica_template-FindsAll_example : FindsAll tls replica
unfolding plain_envs env_var
cassandra_replica_template-FindsAll_example =
    cassandra_replica_template-FindsAll (λ image. "4.1.0") template_spec sets context dc args
      (plain "CASSANDRA_RACK" "rack1" ∷ []) replica refl refl (refl, refl, refl) (refl, refl, refl)
      refl replica_returned

abbrev registration : ServiceRegistration
registration = record {
  id = "";
  name = "cassandra";
  address = "";
  port = 0;
  enable_tag_override = false;
  tags = [];
  meta = [];
  check = some (record { name = ""; tcp = ""; interval = "10s" });
  checks = [];
}

consul_service_registration_cast-checks_example :
    ((after_casts (λ m n. m ++ n) (dc ∷ []) "ns" 2 registration).tags
      ≡ repeated 2 (dc_names (deployed (dc ∷ []))))
    × ((consul_service_registration_cast
          (λ m n. m ++ n)
          (dc ∷ [])
          "ns"
          (after_casts (λ m n. m ++ n) (dc ∷ []) "ns" 2 registration)).0
        ≡ panic "Service check for cassandra is not found")
    × Checked
        (λ m n. m ++ n)
        (dc ∷ [])
        "ns"
        registration
        (after_casts (λ m n. m ++ n) (dc ∷ []) "ns" 2 registration)
consul_service_registration_cast-checks_example =
    consul_service_registration_cast-checks (λ m n. m ++ n) (dc ∷ []) "ns" 1 registration

-- a library for three documents: that of the resource, that of the cluster, and the merged one
abbrev yaml : ConfigPlatform
yaml = record {
  poll = λ h. ok (("config", "old") ∷ []);
  create_config = λ h name labels content. none;
  unmarshal = λ doc. elim (doc == "new") [
    | true ↦ (("cluster_name", "renamed") ∷ [], none)
    | false ↦ elim (doc == "old") [
      | true ↦ (("cluster_name", "first") ∷ ("num_tokens", "256") ∷ [], none)
      | false ↦ (("cluster_name", "renamed") ∷ ("num_tokens", "256") ∷ [], none)
    ]
  ];
  marshal = λ m. ("merged", none);
  handle_error = λ e msg. done tt;
  panic_value = λ e msg. msg;
}

abbrev configured : List ConfigEvent
configured = stored_config yaml "cassandra" "merged" ∷ polled ∷ []

configuration_step_run : configuration_step yaml "new" "cassandra" [] ≡ (done none, configured)
unfolding configuration_step parse_configuration store_configuration insert_all lookup ◌>>◌
configuration_step_run = refl

merged-ReadsBack : ReadsBack yaml (
    insert_all
      (yaml.unmarshal "new").0
      (yaml.unmarshal (text_of "config" (("config", "old") ∷ []))).0)
unfolding insert_all lookup insert
merged-ReadsBack = refl

new_keys-Distinct : Distinct (yaml.unmarshal "new").0
unfolding lookup
new_keys-Distinct = (refl, tt)

configuration_step-lookup_example :
    (◌≡◌ {A = Option String} none none)
    × (((yaml.unmarshal "new").0 ≡ []) × (configured ≡ polled ∷ [])
        ⊎ ((out : String) × (configured ≡ stored_config yaml "cassandra" out ∷ polled ∷ [])
            × (lookup "num_tokens" (yaml.unmarshal out).0
                ≡ or_else (lookup "num_tokens" (yaml.unmarshal "new").0) (
                    lookup "num_tokens"
                      (yaml.unmarshal (text_of "config" (("config", "old") ∷ []))).0))))
configuration_step-lookup_example =
    configuration_step-lookup yaml "new" "cassandra" "num_tokens" (("config", "old") ∷ []) []
      configured none merged-ReadsBack new_keys-Distinct refl configuration_step_run

abbrev collector : MetricCollector
collector = record {
  test_keyspace = "smoke_dc1";
  replicas = 1;
  external_cassandra = false;
  schema_created = false;
}

abbrev driver : SmokeDriver
driver = record {
  session = λ h. none;
  exec = λ h stmt. none;
  exec_failed = λ h stmt. panic "nil pointer";
}

abbrev tested : Outcome (ℕ × MetricCollector) × List SmokeEvent
tested = perform_test driver collector "SELECT" []

perform_test_run :
    perform_test driver collector "SELECT" []
    ≡ (done (1, record collector { schema_created = true }), tested.1)
unfolding perform_test prepare_schema test_statement statement_after ◌>>◌
perform_test_run = refl

perform_test-Tested_example :
    Tested driver collector "SELECT" [] (1, record collector { schema_created = true }) tested.1
perform_test-Tested_example =
    perform_test-Tested driver collector "SELECT" [] tested.1
      (1, record collector { schema_created = true }) perform_test_run

-- Cassandra refuses the first session only
abbrev recovering_driver : SmokeDriver
recovering_driver = record {
  session = λ h. elim h [ [] ↦ some "refused" | _ ∷ _ ↦ none ];
  exec = λ h stmt. none;
  exec_failed = λ h stmt. panic "nil pointer";
}

recovering_driver-Answers : Answers recovering_driver (got_session ∷ [])
recovering_driver-Answers [] = (refl, λ stmt. refl)
recovering_driver-Answers (e ∷ g) = (refl, λ stmt. refl)

metrics_round-recovers_example :
    (h' : List SmokeEvent) × (metrics_round recovering_driver collector (got_session ∷ [])
      ≡ (done (record collector { schema_created = true }), h'))
    × (reported h' ≡ ("delete", 1) ∷ ("select", 1) ∷ ("insert", 1) ∷ [])
metrics_round-recovers_example =
    metrics_round-recovers recovering_driver collector (got_session ∷ []) recovering_driver-Answers
