-- ===== src/Services/Dbaas/Template.antt =====
-- pkg/dbaas/templates.go: the deployment of the DBaaS adapter.
use qubership_cassandra_oper.Base.{ℕ, String, false, none, some, List, [], ◌∷◌}
use qubership_cassandra_oper.Base.Maps.{StringMap}
use qubership_cassandra_oper.Kube.{
  Opaque, EnvVar, VolumeMount, config_map_volume, Volume, tcp_socket, Probe, Workload, hardened,
  writable_mount,
}

abbrev pub dbaas_name : String
dbaas_name = "dbaas-cassandra-adapter"

abbrev pub dbaas_labels : StringMap
dbaas_labels = ("name", dbaas_name) ∷ []

abbrev pub labels_mount : String
labels_mount = "dbaas-physical-databases-labels-mount"

-- the arguments of `DbaasDeploymentTemplate`
pub record DbaasArgs : Type 0 where
  pub namespace : String
  pub image : String
  pub node_selector : StringMap
  pub resources : Opaque
  pub env : List EnvVar
  pub port : ℕ
  pub volume_mounts : List VolumeMount
  pub volumes : List Volume

abbrev pub adapter_probe : ℕ → Probe
adapter_probe port = record {
  handler = tcp_socket port;
  initial_delay_seconds = 5;
  timeout_seconds = 5;
  period_seconds = 7;
  success_threshold = 1;
  failure_threshold = 12;
}

abbrev pub label_volume : Volume
label_volume = record {
  name = labels_mount;
  source = config_map_volume "nc-dbaas-physical-databases-labels" (some 420);
}

unfoldable pub dbaas_deployment_template : DbaasArgs → Workload
dbaas_deployment_template a = record {
  name = dbaas_name;
  namespace = a.namespace;
  labels =
      ("app", "cassandra-cluster")
      ∷ ("microservice", dbaas_name)
      ∷ ("name", dbaas_name)
      ∷ ("app.kubernetes.io/part-of", "cassandra-services")
      ∷ ("app.kubernetes.io/managed-by", "operator")
      ∷ [];
  replicas = 1;
  match_labels = dbaas_labels;
  service_name = "";
  pod_labels = dbaas_labels;
  pod_annotations = [];
  pod = record {
    termination_grace_period_seconds = none;
    affinity = none;
    host_network = false;
    priority_class_name = "";
    service_account_name = "";
    node_selector = a.node_selector;
    tolerations = "";
    security_context = "";
    container = record {
      name = dbaas_name;
      image = a.image;
      image_pull_policy = "";
      security_context = some hardened;
      command = [];
      args = [];
      ports = record { name = "http"; container_port = a.port; protocol = "TCP" } ∷ [];
      resources = a.resources;
      pre_stop = [];
      env = a.env;
      liveness_probe = some (adapter_probe a.port);
      readiness_probe = some (adapter_probe a.port);
      volume_mounts = writable_mount labels_mount "/app/config" ∷ a.volume_mounts;
    };
    sidecars = [];
    volumes = label_volume ∷ a.volumes;
  };
}
