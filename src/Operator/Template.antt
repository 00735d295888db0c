-- ===== src/Operator/Template.antt =====
-- pkg/impl/cassandra/templates.go: the stateful set of a replica, and the service that is
-- registered in Consul.
pub mod Deployable
pub mod Certificates
pub mod Registration
use qubership_cassandra_oper.Base.{
  ℕ, String, Bool, true, false, Option, none, some, List, [], ◌∷◌, ◌++◌, ◌<>◌, ◌==◌, if◌then◌else◌,
}
use qubership_cassandra_oper.Base.Decimal.{ℤ, show_ℤ}
use qubership_cassandra_oper.Base.Maps.{StringMap, insert}
use qubership_cassandra_oper.Base.Go.{Outcome, done, panic}
use qubership_cassandra_oper.Kube.{
  Opaque, EnvVar, VolumeMount, KeyToPath, VolumeProjection, config_map_items, secret_items,
  VolumeSource, claim, empty_dir, projected, Volume, ProbeHandler, tcp_socket, Probe, Affinity,
  given, required_anti_affinity, ContainerPort, Container, PodSpec, Workload, hardened,
  writable_mount,
}
use qubership_cassandra_oper.Operator.Hosts.{cassandra, replica_name, dc_service_name}
use qubership_cassandra_oper.Operator.Services.{cassandra_cluster}
use qubership_cassandra_oper.Operator.StatefulSets.{Tls, configuration_path}

-- what the template reads of the resource
pub record TemplateSpec : Type 0 where
  pub tls : Tls
  pub root_ca_secret_name : String
  pub part_of : String
  pub managed_by : String
  pub image_pull_policy : Opaque
  pub commitlog_archiving : Bool
  pub affinity : Option Opaque
  pub priority_class_name : String
  pub service_account_name : String

-- the arguments of `CassandraReplicaTemplate`, besides the resource
pub record ReplicaArgs : Type 0 where
  pub cassandra_envs : List EnvVar
  pub reaper_container : Container
  pub docker_image : String
  pub pod_security_context : Opaque
  pub replica_number : ℤ
  pub namespace : String
  pub node_selector : StringMap
  pub tolerations : Opaque
  pub resources : Opaque
  pub data_center_name : String
  pub liveness_retries : ℕ
  pub pvc_mounts : List (String × Option VolumeMount)
  pub host_network : Bool

-- the loop over the claims, which dereferences each mount
abbrev pub add_claim :
    String
    → VolumeMount
    → Outcome (List Volume × List VolumeMount)
    → Outcome (List Volume × List VolumeMount)
add_claim name mount (panic p) = panic p
add_claim name mount (done (volumes, mounts)) =
    done (record { name = mount.name; source = claim name } ∷ volumes, mount ∷ mounts)

unfoldable pub claims :
    List (String × Option VolumeMount) → Outcome (List Volume × List VolumeMount)
claims [] = done ([], [])
claims ((name, none) ∷ rest) =
    panic "runtime error: invalid memory address or nil pointer dereference"
claims ((name, some mount) ∷ rest) = add_claim name mount (claims rest)

-- One map is the labels of the set, its selector and the labels of its pods, and has their name too.
-- The version is what the regular expression finds in the image.
unfoldable pub replica_labels : (String → String) → TemplateSpec → ReplicaArgs → StringMap
unfolding insert
replica_labels find_version spec a = insert "name" (replica_name a.replica_number) (
    ("service", cassandra_cluster)
    ∷ ("app", dc_service_name a.data_center_name)
    ∷ ("replica_number", show_ℤ a.replica_number)
    ∷ ("app.kubernetes.io/part-of", spec.part_of)
    ∷ ("app.kubernetes.io/managed-by", spec.managed_by)
    ∷ ("clone-mode-type", "data")
    ∷ ("app.kubernetes.io/version", find_version a.docker_image)
    ∷ ("app.kubernetes.io/managed-by-operator", "cassandra-operator")
    ∷ [])

abbrev pub config_item : String → String → VolumeProjection
config_item name path = config_map_items name (record { key = "config"; path = path } ∷ [])

abbrev pub file_item : String → KeyToPath
file_item file = record { key = file; path = file }

abbrev pub tls_items : TemplateSpec → VolumeProjection
tls_items spec = secret_items spec.root_ca_secret_name (
    file_item spec.tls.root_ca_file_name
    ∷ file_item spec.tls.private_key_file_name
    ∷ file_item spec.tls.signed_crt_file_name
    ∷ [])

abbrev pub config_items : TemplateSpec → List VolumeProjection
config_items spec =
    (config_item "cassandra-configuration" "cassandra.yaml"
      ∷ config_item "cassandra-env" "cassandra-env.sh"
      ∷ config_item "cassandra-jvm" "jvm-server.options"
      ∷ config_item "cassandra-logback" "logback.xml"
      ∷ [])
    ++ (if spec.commitlog_archiving
        then config_item "cassandra-commiglog-archiving" "commitlog_archiving.properties" ∷ []
        else [])

-- the files of the volume of the configuration
unfoldable pub configuration_items : TemplateSpec → List VolumeProjection
configuration_items spec =
    config_items spec ++ (if spec.tls.enabled then tls_items spec ∷ [] else [])

-- the volumes of the reaper, and their mounts in its container
unfoldable pub reaper_volumes : TemplateSpec → List Volume
reaper_volumes spec =
    record {
      name = "reaper";
      source = projected (config_item "cassandra-reaper" "cassandra-reaper.yml" ∷ []);
    }
    ∷ (if spec.tls.enabled
        then record { name = "reaper-tls"; source = projected (tls_items spec ∷ []) } ∷ []
        else [])

unfoldable pub reaper_mounts : TemplateSpec → List VolumeMount
reaper_mounts spec =
    writable_mount "reaper" "/etc/cassandra-reaper-temp/"
    ∷ (if spec.tls.enabled then writable_mount "reaper-tls" "/usr/ssl/" ∷ [] else [])

unfoldable pub own_mounts : List VolumeMount
own_mounts =
    writable_mount "configuration" configuration_path
    ∷ writable_mount "tmp" "/tmp"
    ∷ writable_mount "cassandra-home" "/home/cassandra"
    ∷ writable_mount "cassandra-conf" "/opt/cassandra/conf"
    ∷ writable_mount "custom-ssh" "/var/lib/cassandra/custom_ssh"
    ∷ []

unfoldable pub own_volumes : TemplateSpec → List Volume
own_volumes spec =
    record { name = "tmp"; source = empty_dir (some 32) }
    ∷ record { name = "cassandra-conf"; source = empty_dir none }
    ∷ record { name = "cassandra-home"; source = empty_dir none }
    ∷ record { name = "custom-ssh"; source = empty_dir none }
    ∷ record { name = "configuration"; source = projected (configuration_items spec) }
    ∷ []

abbrev pub cql_probe : ℕ → Probe
cql_probe failures = record {
  handler = tcp_socket 9042;
  initial_delay_seconds = 100;
  timeout_seconds = 10;
  period_seconds = 20;
  success_threshold = 1;
  failure_threshold = failures;
}

abbrev pub open_port : String → ℕ → ContainerPort
open_port name port = record { name = name; container_port = port; protocol = "" }

unfoldable pub cassandra_container : TemplateSpec → ReplicaArgs → List VolumeMount → Container
unfolding own_mounts
cassandra_container spec a mounts = record {
  name = replica_name a.replica_number;
  image = a.docker_image;
  image_pull_policy = spec.image_pull_policy;
  security_context = some hardened;
  command = "/bin/bash" ∷ "-c" ∷ "rm -f /var/lib/cassandra/data/system/peer*/*.*; /run.sh" ∷ [];
  args = [];
  ports =
      open_port "intra-node" 7000
      ∷ open_port "tls-intra-node" 7001
      ∷ open_port "jmx" 7199
      ∷ open_port "cql" 9042
      ∷ open_port "tcp-upd-port" 8778
      ∷ [];
  resources = a.resources;
  pre_stop = "/bin/bash" ∷ "-c" ∷ "nodetool flush" ∷ [];
  env = a.cassandra_envs;
  liveness_probe = some (cql_probe a.liveness_retries);
  readiness_probe = some (cql_probe 3);
  volume_mounts = mounts ++ own_mounts;
}

-- the reaper's container, if it has a name, with its mounts
unfoldable pub reaper_sidecars : TemplateSpec → Container → List Container
unfolding reaper_mounts
reaper_sidecars spec reaper =
    if reaper.name == ""
    then []
    else record reaper { volume_mounts = reaper.volume_mounts ++ reaper_mounts spec } ∷ []

-- pods of the cluster do not share a host, unless the resource gives another rule
unfoldable pub replica_affinity : Option Opaque → Affinity
replica_affinity none =
    required_anti_affinity "service" (cassandra_cluster ∷ []) "kubernetes.io/hostname"
replica_affinity (some affinity) = given affinity

unfoldable pub replica_workload :
    (String → String) → TemplateSpec → ReplicaArgs → List Volume × List VolumeMount → Workload
unfolding replica_labels cassandra_container reaper_sidecars reaper_volumes own_volumes
    replica_affinity
replica_workload find_version spec a claimed = record {
  name = replica_name a.replica_number;
  namespace = a.namespace;
  labels = replica_labels find_version spec a;
  replicas = 1;
  match_labels = replica_labels find_version spec a;
  service_name = cassandra;
  pod_labels = replica_labels find_version spec a;
  pod_annotations = [];
  pod = record {
    termination_grace_period_seconds = some 10;
    affinity = some (replica_affinity spec.affinity);
    host_network = a.host_network;
    priority_class_name = spec.priority_class_name;
    service_account_name = spec.service_account_name;
    node_selector = a.node_selector;
    tolerations = a.tolerations;
    security_context = a.pod_security_context;
    container = cassandra_container spec a claimed.1;
    sidecars = reaper_sidecars spec a.reaper_container;
    volumes =
        claimed.0
        ++ (if a.reaper_container.name == "" then [] else reaper_volumes spec)
        ++ own_volumes spec;
  };
}

abbrev pub with_claims :
    (String → String)
    → TemplateSpec
    → ReplicaArgs
    → Outcome (List Volume × List VolumeMount)
    → Outcome Workload
with_claims find_version spec a (panic p) = panic p
with_claims find_version spec a (done claimed) = done (replica_workload find_version spec a claimed)

-- `CassandraReplicaTemplate`
unfoldable pub cassandra_replica_template :
    (String → String) → TemplateSpec → ReplicaArgs → Outcome Workload
unfolding replica_workload claims
cassandra_replica_template find_version spec a =
    with_claims find_version spec a (claims a.pvc_mounts)
