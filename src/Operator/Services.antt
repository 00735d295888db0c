-- ===== src/Operator/Services.antt =====
-- pkg/impl/cassandra/service_step.go, serivce_lb_step.go: the services of the cluster.
pub mod Hosts
use qubership_cassandra_oper.Base.{ℕ, String, Bool, true, false, List, [], ◌∷◌, ◌<>◌}
use qubership_cassandra_oper.Base.Go.{Go, pure, ask, emit, ◌>>=◌, ◌>>◌}
use qubership_cassandra_oper.Operator.DataCenters.{DataCenter, StringMap, deployed}
use qubership_cassandra_oper.Operator.Hosts.{cassandra, dc_service_name}
use qubership_cassandra_oper.Operator.Cluster.{
  Event, applied, removed, ServiceTemplate, Cluster, must,
}

-- what the services read of the resource
pub record ServiceSpec : Type 0 where
  pub data_centers : List DataCenter
  pub instance_name : String
  pub reaper_port : ℕ

-- the keys of the operator's core library: the label of the application and of the microservice
pub record LabelKeys : Type 0 where
  pub app : String
  pub microservice : String

abbrev pub cassandra_cluster : String
cassandra_cluster = "cassandra-cluster"

abbrev pub cassandra_metrics : String
cassandra_metrics = "cassandra-metrics"

abbrev pub cassandra_lb : String
cassandra_lb = "cassandra-lb"

abbrev pub cluster_selector : StringMap
cluster_selector = ("service", cassandra_cluster) ∷ []

module _ (keys : LabelKeys) (spec : ServiceSpec) where
  abbrev pub service_labels : String → String → StringMap
  service_labels name technology =
      (keys.app, cassandra_cluster)
      ∷ (keys.microservice, name)
      ∷ ("name", cassandra)
      ∷ ("app.kubernetes.io/name", cassandra)
      ∷ ("app.kubernetes.io/technology", technology)
      ∷ ("app.kubernetes.io/component", "backend")
      ∷ ("app.kubernetes.io/managed-by", "operator")
      ∷ ("app.kubernetes.io/instance", spec.instance_name)
      ∷ ("app.kubernetes.io/managed-by-operator", "cassandra-operator")
      ∷ []

  abbrev pub client_ports : List (String × ℕ)
  client_ports = ("cql-port", 9042) ∷ ("tcp-upd-port", 8778) ∷ ("reaper", spec.reaper_port) ∷ []

  abbrev pub dc_template : DataCenter → ServiceTemplate
  dc_template dc = record {
    name = dc_service_name dc.name;
    headless = true;
    client_affinity = false;
    labels = service_labels (dc_service_name dc.name) "go";
    selectors = ("app", dc_service_name dc.name) ∷ [];
    ports = ("cql-port", 9042) ∷ [];
  }

  dc_services : List DataCenter → List ServiceTemplate
  dc_services [] = []
  dc_services (dc ∷ dcs) = dc_template dc ∷ dc_services dcs

  -- the templates in their order
  unfoldable pub service_templates : List ServiceTemplate
  unfolding dc_services
  service_templates =
      record {
        name = cassandra;
        headless = true;
        client_affinity = true;
        labels = service_labels cassandra "java";
        selectors = cluster_selector;
        ports = client_ports;
      }
      ∷ record {
        name = cassandra_metrics;
        headless = false;
        client_affinity = false;
        labels = service_labels cassandra_metrics "go";
        selectors = cluster_selector;
        ports = ("metrics", 9500) ∷ [];
      }
      ∷ dc_services (deployed spec.data_centers)

  abbrev pub lb_template : ServiceTemplate
  lb_template = record {
    name = cassandra_lb;
    headless = false;
    client_affinity = true;
    labels = service_labels cassandra_lb "go";
    selectors = cluster_selector;
    ports = client_ports;
  }

module _ (k : Cluster) where
  -- the old service goes, whatever the answer, and the new one must be created
  unfoldable pub replace_service : ServiceTemplate → Go Event (Unit {0})
  replace_service template = do
    emit (removed template.name)
    must k (ask (λ h. k.apply h template) (applied template))
        ("Service " <> template.name <> " creation failed")

  unfoldable pub replace_services : List ServiceTemplate → Go Event (Unit {0})
  replace_services [] = pure tt
  replace_services (template ∷ rest) = do replace_service template; replace_services rest

  -- `Execute` of both steps
  unfoldable pub services_step : LabelKeys → ServiceSpec → Go Event (Unit {0})
  services_step keys spec = replace_services (service_templates keys spec)

  unfoldable pub load_balancer_step : LabelKeys → ServiceSpec → Go Event (Unit {0})
  load_balancer_step keys spec = replace_services (lb_template keys spec ∷ [])
