-- ===== src/Services/Dbaas/Step.antt =====
-- pkg/dbaas/deployment_step.go and pkg/dbaas/dbaas_service_step.go: the steps of the DBaaS adapter.
use qubership_cassandra_oper.Base.{
  String, Bool, Option, none, some, List, [], ◌∷◌, ◌++◌, ◌<>◌, if◌then◌else◌,
}
use qubership_cassandra_oper.Base.Decimal.{show_ℕ}
use qubership_cassandra_oper.Base.Maps.{StringMap, insert}
use qubership_cassandra_oper.Base.Go.{Go, pure, emit, ask, ◌>>=◌, ◌>>◌, case_result, panic_error}
use qubership_cassandra_oper.Kube.{
  EnvVar, plain, field_ref, Opaque, PodSpec, Workload, SimpleService,
}
use qubership_cassandra_oper.Services.Resource.{
  DbaasAdapterCredentials, DbaasAggregatorCredentials, ServicesSpec,
}
use qubership_cassandra_oper.Services.Platform.{
  Action, hashed, deleted_service, deleted_workload, waited, Platform, deref, demand,
}
use qubership_cassandra_oper.Services.Labels.{
  BasicLabels, fill_workload, fill_service, create_workload, create_service,
}
use qubership_cassandra_oper.Services.Pods.{
  bool_text, tls_client_update, tls_server_update, get_http_port, get_http_protocol,
  is_tls_enable_for_dbaas, secret_volumes, secret_mounts,
}
use qubership_cassandra_oper.Services.Dbaas.Template.{
  dbaas_name, dbaas_labels, dbaas_deployment_template,
}

abbrev pub adapter_labels : BasicLabels
adapter_labels = record {
  app_name = dbaas_name;
  app_component = "backend";
  app_technology = "go";
  app_part_of = "cassandra-services";
  app_managed_by = "operator";
  app_managed_by_operator = "cassandra-services-operator";
}

-- whether the adapter itself is served over TLS
unfoldable pub adapter_tls : ServicesSpec → DbaasAggregatorCredentials → Bool
unfolding is_tls_enable_for_dbaas
adapter_tls spec aggregator =
    is_tls_enable_for_dbaas aggregator.dbaas_aggregator_registration_address spec.tls.enabled

unfoldable pub dbaas_secrets :
    ServicesSpec → DbaasAdapterCredentials → DbaasAggregatorCredentials → StringMap
unfolding insert
dbaas_secrets spec adapter aggregator =
    let always = insert "dbaas-streaming-role" "/var/run/secrets/dbaas-streaming" (
      insert aggregator.secret_name "/var/run/secrets/dbaas-aggregator" (
        insert adapter.secret_name "/var/run/secrets/dbaas-adapter"
          (insert spec.cassandra.secret_name "/var/run/secrets/cassandra" []))) in
    if spec.backup.install
    then insert spec.backup.secret_name "/var/run/secrets/backup" always
    else always

-- `protocol://host:port` of a service
abbrev pub http_address : Bool → String → String
http_address tls host = get_http_protocol tls <> "://" <> host <> ":" <> show_ℕ (get_http_port tls)

module _ (k : Platform) (spec : ServicesSpec) (namespace : String)
    (aggregator : DbaasAggregatorCredentials) where
  unfoldable pub dbaas_envs : List EnvVar
  unfolding bool_text
  dbaas_envs =
      (field_ref "NAMESPACE" "metadata.namespace"
        ∷ plain "CASSANDRA_HOSTNAME"
            (k.optional_string spec.cassandra.host ("cassandra." <> namespace))
        ∷ plain "CASSANDRA_PORT" (k.optional_string (show_ℕ spec.cassandra.port) "9042")
        ∷ plain "GOCQL_DEFAULT_KEYSPACE"
            (k.optional_string spec.cassandra.default_keyspace "system")
        ∷ plain "GOCQL_CONSISTENCY" (k.optional_string spec.cassandra.consistency "QUORUM")
        ∷ plain "TLS_ENABLED" (bool_text spec.cassandra.tls)
        ∷ plain "DBAAS_AGGREGATOR_PHYSICAL_DATABASE_IDENTIFIER"
            (k.optional_string aggregator.physical_database_identifier namespace)
        ∷ plain "DBAAS_ADAPTER_ADDRESS"
            (http_address (adapter_tls spec aggregator) (dbaas_name <> "." <> namespace))
        ∷ plain "DBAAS_AGGREGATOR_REGISTRATION_ADDRESS"
            aggregator.dbaas_aggregator_registration_address
        ∷ plain "PORT" (show_ℕ (get_http_port (adapter_tls spec aggregator)))
        ∷ plain "GOCQL_TIMEOUT" (show_ℕ spec.gocql_timeout)
        ∷ plain "GOCQL_CONNECT_TIMEOUT" (show_ℕ spec.gocql_connect_timeout)
        ∷ plain "CLOUD_PUBLIC_HOST" k.public_host
        ∷ plain "API_VERSION" spec.dbaas.api_version
        ∷ plain "MULTI_USERS_ENABLED" (bool_text spec.dbaas.multi_users)
        ∷ plain "CASSANDRA_DEFAULT_TOPOLOGY" spec.dbaas.topology_strategy
        ∷ [])
      ++ (if spec.backup.install
          then plain "BACKUP_DAEMON_ADDRESS"
              (http_address spec.tls.enabled "cassandra-backup-daemon")
            ∷ []
          else [])

  unfoldable pub adapter_workload : DbaasAdapterCredentials → Opaque → Workload
  adapter_workload adapter resources = dbaas_deployment_template (record {
    namespace = namespace;
    image = spec.dbaas.docker_image;
    node_selector = spec.dbaas.node_labels;
    resources = resources;
    env = dbaas_envs;
    port = get_http_port (adapter_tls spec aggregator);
    volume_mounts = secret_mounts (k.iterate (dbaas_secrets spec adapter aggregator));
    volumes = secret_volumes (k.iterate (dbaas_secrets spec adapter aggregator));
  })

  -- the pod with the client's certificate and, where the adapter is served over TLS, its own
  unfoldable pub adapter_certified : PodSpec → PodSpec
  adapter_certified pod =
      let client = tls_client_update "/usr/ssl/" spec.tls pod in
      if adapter_tls spec aggregator
      then tls_server_update spec.tls spec.dbaas.dbaas_adapter_ca_secret_name "/certs/" client
      else client

  abbrev pub certified_adapter : DbaasAdapterCredentials → Opaque → StringMap → Workload
  certified_adapter adapter resources annotations = record (adapter_workload adapter resources) {
    pod_annotations = annotations;
    pod = adapter_certified (adapter_workload adapter resources).pod;
  }

  -- what is created in the end
  abbrev pub filled_adapter : DbaasAdapterCredentials → Opaque → StringMap → Workload
  filled_adapter adapter resources annotations =
      fill_workload spec adapter_labels (certified_adapter adapter resources annotations)

  unfoldable pub deploy_adapter : Workload → Go Action (Option String)
  deploy_adapter dc = do
    demand k (λ h. k.delete_workload h dc.name) (deleted_workload dc.name)
        "Dbaas deployment deletion failed"
    err ← create_workload k spec dc adapter_labels
    panic_error k.panic_value err "Dbaas deployment config processing failed"
    demand k (λ h. k.wait_for_pods h dbaas_labels) (waited dbaas_labels)
        "Dbaas Pod Ready status waiting failed"
    pure none

  abbrev pub dbaas_service : SimpleService
  dbaas_service = record {
    name = dbaas_name;
    labels =
        (k.label_app, "cassandra-cluster")
        ∷ (k.label_microservice, dbaas_name)
        ∷ ("name", dbaas_name)
        ∷ [];
    selectors = dbaas_labels;
    ports = ("http", get_http_port (adapter_tls spec aggregator)) ∷ [];
    namespace = namespace;
  }

  -- what is created in the end
  abbrev pub filled_dbaas_service : SimpleService
  filled_dbaas_service = fill_service spec adapter_labels dbaas_service

module _ (k : Platform) (spec : ServicesSpec) (namespace : String) where
  -- `Execute`
  unfoldable pub dbaas_deployment_step : Go Action (Option String)
  dbaas_deployment_step = do
    aggregator ← deref spec.dbaas.aggregator
    adapter ← deref spec.dbaas.adapter
    resources ← deref spec.dbaas.resources
    let dc = adapter_workload k spec namespace aggregator adapter resources
    let secrets = spec.cassandra.secret_name ∷ []
    hash ← ask (λ h. k.add_cred_hash h secrets dc.pod_annotations) (hashed secrets)
    case_result hash (λ e. pure (some e))
        λ annotations.
          deploy_adapter k spec namespace aggregator
            (certified_adapter k spec namespace aggregator adapter resources annotations)

  -- `Execute` of the service's step; the answer of the removal is not looked at
  unfoldable pub dbaas_service_step : Go Action (Option String)
  dbaas_service_step = do
    aggregator ← deref spec.dbaas.aggregator
    emit (deleted_service dbaas_name)
    err ← create_service k spec (dbaas_service k spec namespace aggregator) adapter_labels
    panic_error k.panic_value err "Dbaas service creation failed"
    pure none
