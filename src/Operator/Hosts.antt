-- ===== src/Operator/Hosts.antt =====
-- pkg/impl/utils/utils.go: the names of stateful sets, pods, services and hosts.
pub mod Names
use qubership_cassandra_oper.Base.{
  ℕ, zero, suc, ◌+◌, String, Bool, true, false, not, Option, none, some, List, [], ◌∷◌, ◌++◌, ◌<>◌,
  ◌&&◌, if◌then◌else◌,
}
use qubership_cassandra_oper.Base.Decimal.{ℤ, pos, show_ℕ, show_ℤ}
use qubership_cassandra_oper.Base.Lists.{get_elem?}
use qubership_cassandra_oper.Base.Strings.{join}
use qubership_cassandra_oper.Operator.DataCenters.{
  DataCenter, get_active_replicas_len, calc_replica_index, deployed,
}

abbrev pub cassandra : String
cassandra = "cassandra"

abbrev pub default_cluster_domain : String
default_cluster_domain = "cluster.local"

-- `CassandraReplicaNameFormat`: the stateful set of a replica
abbrev pub replica_name : ℤ → String
replica_name n = cassandra <> show_ℤ n

-- `StatefulSetPodNameTemplate`: its one pod
abbrev pub pod_name : String → String
pod_name s = s <> "-0"

abbrev pub dc_service_name : String → String
dc_service_name name = cassandra <> "-dc-" <> name

unfoldable pub get_cluster_domain : DataCenter → String
get_cluster_domain dc = if dc.deploy then default_cluster_domain else dc.cluster_domain

-- the service of the data center, unless the common one is asked for or there is no data center
unfoldable pub service_of : Bool → Option DataCenter → String
service_of true dc = cassandra
service_of false none = cassandra
service_of false (some dc) = dc_service_name dc.name

unfoldable pub calc_service_host_name : Bool → Option DataCenter → String → String → String
unfolding service_of
calc_service_host_name is_common dc namespace cluster_domain =
    service_of is_common dc <> "." <> namespace <> ".svc." <> cluster_domain

-- `none` is the panic on an index out of range
unfoldable pub calc_replica_host_name : Bool → List DataCenter → ℕ → ℕ → String → Option String
calc_replica_host_name is_common dcs current_dc replica namespace =
    elim (get_elem? dcs current_dc) [
      | none ↦ none
      | some dc ↦ some (
          pod_name (replica_name (calc_replica_index dcs current_dc (pos replica)))
          <> "."
          <> calc_service_host_name is_common (some dc) namespace (get_cluster_domain dc))
    ]

-- `GetConnectionHosts`: a host for each replica of each data center, numbered from 0 in each
hosts_of : String → ℕ → ℕ → List String
hosts_of service_host zero replica = []
hosts_of service_host (suc left) replica =
    (cassandra <> show_ℕ replica <> "-0." <> service_host)
    ∷ hosts_of service_host left (suc replica)

unfoldable pub get_connection_hosts : String → List DataCenter → List String
unfolding hosts_of
get_connection_hosts namespace [] = []
get_connection_hosts namespace (dc ∷ dcs) =
    hosts_of (calc_service_host_name true (some dc) namespace (get_cluster_domain dc)) dc.replicas 0
    ++ get_connection_hosts namespace dcs

-- `GetReplicationFactor`, with the answer of `IsAllDCsDeployed`
abbrev pub replication_entry : DataCenter → String
replication_entry dc = "'" <> dc.name <> "': '" <> show_ℕ (get_active_replicas_len dc) <> "'"

unfoldable pub replication_entries : List DataCenter → List String
replication_entries [] = []
replication_entries (dc ∷ dcs) = replication_entry dc ∷ replication_entries dcs

unfoldable pub get_replication_factor : Bool → List DataCenter → String
unfolding replication_entries join
get_replication_factor all_deployed dcs =
    join "," (replication_entries (if all_deployed then dcs else deployed dcs))
