-- ===== src/Kube.antt =====
-- The values of the Kubernetes API that the operators build: containers, pods, deployments and
-- services, as far as the operators fill them. Everything that an operator hands on from its
-- resource without reading it (resources, tolerations, contexts) is a text here.
pub mod Mounted
pub mod Files
pub mod Variables
use qubership_cassandra_oper.Base.{ℕ, String, Bool, true, false, Option, none, some, List, [], ◌∷◌}
use qubership_cassandra_oper.Base.Maps.{StringMap}

-- a value that is only handed on
abbrev pub Opaque : Type 0
Opaque = String

-- `v1.EnvVar`: a text, a field of the pod, a resource limit, or a key of a secret
pub data EnvVar : Type 0 where
  plain : String → String → EnvVar
  field_ref resource_ref : String → String → EnvVar
  secret_ref : String → String → String → EnvVar

pub record VolumeMount : Type 0 where
  pub name : String
  pub mount_path : String
  pub read_only : Bool

-- `v1.KeyToPath`
pub record KeyToPath : Type 0 where
  pub key : String
  pub path : String

-- the items of a config map or of a secret that a projected volume shows
pub data VolumeProjection : Type 0 where
  config_map_items secret_items : String → List KeyToPath → VolumeProjection

pub data VolumeSource : Type 0 where
  claim : String → VolumeSource
  -- with its limit in megabytes
  empty_dir : Option ℕ → VolumeSource
  -- a name, and the mode of the files
  secret_volume config_map_volume : String → Option ℕ → VolumeSource
  projected : List VolumeProjection → VolumeSource

pub record Volume : Type 0 where
  pub name : String
  pub source : VolumeSource

pub data ProbeHandler : Type 0 where
  tcp_socket : ℕ → ProbeHandler
  -- a path, a port and a scheme
  http_get : String → ℕ → String → ProbeHandler

pub record Probe : Type 0 where
  pub handler : ProbeHandler
  pub initial_delay_seconds : ℕ
  pub timeout_seconds : ℕ
  pub period_seconds : ℕ
  pub success_threshold : ℕ
  pub failure_threshold : ℕ

pub record SecurityContext : Type 0 where
  pub drop_capabilities : List String
  pub allow_privilege_escalation : Bool
  pub read_only_root_filesystem : Bool

-- an affinity that the resource gives, or the rule that pods whose label has one of the values do
-- not share a domain of the topology
pub data Affinity : Type 0 where
  given : Opaque → Affinity
  required_anti_affinity : String → List String → String → Affinity

-- a port of a container with its name and, where it is set, its protocol
pub record ContainerPort : Type 0 where
  pub name : String
  pub container_port : ℕ
  pub protocol : String

pub record Container : Type 0 where
  pub name : String
  pub image : String
  pub image_pull_policy : Opaque
  pub security_context : Option SecurityContext
  pub command : List String
  pub args : List String
  pub ports : List ContainerPort
  pub resources : Opaque
  pub pre_stop : List String
  pub env : List EnvVar
  pub liveness_probe : Option Probe
  pub readiness_probe : Option Probe
  pub volume_mounts : List VolumeMount

-- A pod: `container` is `Containers[0]`, which every template has, and `sidecars` are the others.
pub record PodSpec : Type 0 where
  pub termination_grace_period_seconds : Option ℕ
  pub affinity : Option Affinity
  pub host_network : Bool
  pub priority_class_name : String
  pub service_account_name : String
  pub node_selector : StringMap
  pub tolerations : Opaque
  pub security_context : Opaque
  pub container : Container
  pub sidecars : List Container
  pub volumes : List Volume

-- a deployment, or a stateful set, which has the name of its service
pub record Workload : Type 0 where
  pub name : String
  pub namespace : String
  pub labels : StringMap
  pub replicas : ℕ
  pub match_labels : StringMap
  pub service_name : String
  pub pod_labels : StringMap
  pub pod_annotations : StringMap
  pub pod : PodSpec

-- `SimpleServiceTemplate` of the operators' core library
pub record SimpleService : Type 0 where
  pub name : String
  pub labels : StringMap
  pub selectors : StringMap
  pub ports : List (String × ℕ)
  pub namespace : String

-- the security context of all the containers
abbrev pub hardened : SecurityContext
hardened = record {
  drop_capabilities = "ALL" ∷ [];
  allow_privilege_escalation = false;
  read_only_root_filesystem = true;
}

abbrev pub writable_mount : String → String → VolumeMount
writable_mount name path = record { name = name; mount_path = path; read_only = false }
