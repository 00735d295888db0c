-- ===== src/Operator/Reaper.antt =====
-- pkg/impl/cassandra/reaper.go: the keyspace and the ingress of the reaper.
pub mod Exposed
use qubership_cassandra_oper.Base.{
  ℕ, String, Bool, true, false, Option, List, [], ◌∷◌, ◌++◌, ◌<>◌, ◌==◌, if◌then◌else◌,
}
use qubership_cassandra_oper.Base.Go.{Go, pure, ask, ◌>>=◌, ◌>>◌}
use qubership_cassandra_oper.Operator.DataCenters.{DataCenter, StringMap}
use qubership_cassandra_oper.Operator.Hosts.{cassandra, get_replication_factor}
use qubership_cassandra_oper.Operator.Cluster.{Event, exposed, Ingress, Cluster, must, exec}
use qubership_cassandra_oper.Operator.Topology.{get_session, is_all_dcs_deployed}

pub record ReaperSpec : Type 0 where
  pub data_centers : List DataCenter
  pub tls_enabled : Bool
  pub root_ca_secret_name : String
  pub ingress_host : String
  pub reaper_port : ℕ
  pub namespace : String

abbrev pub create_reaper_keyspace : String → String
create_reaper_keyspace replication =
    "CREATE KEYSPACE if not exists reaper_db  WITH REPLICATION = { 'class' : 'NetworkTopologyStrategy',  "
    <> replication <> " }"

abbrev pub alter_reaper_keyspace : String → String
alter_reaper_keyspace replication =
    "alter KEYSPACE reaper_db  WITH REPLICATION = { 'class' : 'NetworkTopologyStrategy',  "
    <> replication <> " }"

abbrev pub tls_annotations : ReaperSpec → StringMap
tls_annotations spec =
    if spec.tls_enabled
    then ("nginx.ingress.kubernetes.io/backend-protocol", "HTTPS")
      ∷ ("nginx.ingress.kubernetes.io/proxy-ssl-verify", "on")
      ∷ ("nginx.ingress.kubernetes.io/proxy-ssl-name", "cassandra." <> spec.namespace)
      ∷ (
        "nginx.ingress.kubernetes.io/proxy-ssl-secret",
        spec.namespace <> "/" <> spec.root_ca_secret_name,
      )
      ∷ []
    else []

abbrev pub reaper_ingress : ReaperSpec → Ingress
reaper_ingress spec = record {
  name = "cassandra-reaper";
  annotations =
      (("nginx.ingress.kubernetes.io/affinity", "cookie")
        ∷ ("nginx.ingress.kubernetes.io/session-cookie-name", "route")
        ∷ ("nginx.ingress.kubernetes.io/session-cookie-expires", "172800")
        ∷ ("nginx.ingress.kubernetes.io/session-cookie-max-age", "172800")
        ∷ [])
      ++ tls_annotations spec;
  host = spec.ingress_host;
  service = cassandra;
  port = spec.reaper_port;
}

module _ (k : Cluster) (user password : String) where
  unfoldable pub expose_reaper : ReaperSpec → Go Event (Unit {0})
  expose_reaper spec =
      if spec.ingress_host == ""
      then pure tt
      else must k (ask (λ h. k.expose h (reaper_ingress spec)) (exposed (reaper_ingress spec)))
          "Ingress cassandra-reaper creation failed"

  -- `Execute`: the session is there before the replication factor is asked for
  unfoldable pub reaper_step : ReaperSpec → Go Event (Unit {0})
  reaper_step spec = do
    get_session k user password
    all_deployed ← is_all_dcs_deployed k user password spec.data_centers
    let replication = get_replication_factor all_deployed spec.data_centers
    exec k (create_reaper_keyspace replication) true
    exec k (alter_reaper_keyspace replication) true
    expose_reaper spec
