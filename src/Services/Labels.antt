-- ===== src/Services/Labels.antt =====
-- pkg/utils/utils.go: the labels of the services, and `CreateRuntimeObjectContextWrapper`.
pub mod Selected
use qubership_cassandra_oper.Base.{
  String, Bool, true, false, Option, none, some, List, [], ◌∷◌, ◌==◌, not, if◌then◌else◌,
}
use qubership_cassandra_oper.Base.Maps.{StringMap, insert, insert_all}
use qubership_cassandra_oper.Base.Go.{Go, ask}
use qubership_cassandra_oper.Kube.{Opaque, PodSpec, Workload, SimpleService}
use qubership_cassandra_oper.Services.Resource.{ServicesSpec, DbaasSpec}
use qubership_cassandra_oper.Services.Platform.{Action, created, created_service, Platform}

pub record BasicLabels : Type 0 where
  pub app_name : String
  pub app_component : String
  pub app_technology : String
  pub app_part_of : String
  pub app_managed_by : String
  pub app_managed_by_operator : String

-- the loop over the extra labels
unfoldable pub add_labels : StringMap → StringMap → StringMap
add_labels [] labels = labels
add_labels ((key, value) ∷ extra) labels =
    add_labels extra (if value == "" then labels else insert key value labels)

abbrev pub own_labels : ServicesSpec → StringMap
own_labels spec =
    ("app.kubernetes.io/instance", spec.instance_name)
    ∷ ("app.kubernetes.io/version", spec.artifact_descriptor_version)
    ∷ []

abbrev pub extra_labels : BasicLabels → StringMap
extra_labels s =
    ("app.kubernetes.io/name", s.app_name)
    ∷ ("app.kubernetes.io/component", s.app_component)
    ∷ ("app.kubernetes.io/technology", s.app_technology)
    ∷ ("app.kubernetes.io/part-of", s.app_part_of)
    ∷ ("app.kubernetes.io/managed-by", s.app_managed_by)
    ∷ ("app.kubernetes.io/managed-by-operator", s.app_managed_by_operator)
    ∷ []

unfoldable pub get_labels : ServicesSpec → BasicLabels → StringMap
unfolding add_labels insert
get_labels spec s = add_labels (extra_labels s) (own_labels spec)

-- nil where the resource has no policies
abbrev pub tolerations : Option Opaque → Opaque
tolerations none = ""
tolerations (some t) = t

-- The case of a deployment. The pull policy of the images is written to copies of the containers,
-- and so not at all.
unfoldable pub fill_workload : ServicesSpec → BasicLabels → Workload → Workload
unfolding get_labels insert_all
fill_workload spec labels obj = record obj {
  labels = insert_all (get_labels spec labels) obj.labels;
  pod_labels = insert_all (get_labels spec labels) obj.pod_labels;
  pod = record (obj.pod) {
    tolerations = tolerations spec.policies;
    security_context = spec.pod_security_context;
    service_account_name = spec.service_account_name;
    priority_class_name = spec.dbaas.priority_class_name;
  };
}

-- the case of a service
unfoldable pub fill_service : ServicesSpec → BasicLabels → SimpleService → SimpleService
unfolding get_labels insert_all
fill_service spec labels obj = record obj {
  labels = insert_all (get_labels spec labels) obj.labels;
}

module _ (k : Platform) (spec : ServicesSpec) where
  unfoldable pub create_workload : Workload → BasicLabels → Go Action (Option String)
  create_workload obj labels =
      let filled = fill_workload spec labels obj in ask (λ h. k.create h filled) (created filled)

  unfoldable pub create_service : SimpleService → BasicLabels → Go Action (Option String)
  create_service obj labels =
      let filled = fill_service spec labels obj in
      ask (λ h. k.create_service h filled) (created_service filled)
