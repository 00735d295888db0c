-- ===== src/Operator/Seeds.antt =====
-- pkg/impl/common/seeds_step.go: the seeds of each data center and of the cluster.
pub mod Pods
use qubership_cassandra_oper.Base.{
  ℕ, zero, suc, ◌+◌, String, Bool, true, false, Option, none, some, List, [], ◌∷◌, ◌++◌, ◌<>◌, leb,
  if◌then◌else◌,
}
use qubership_cassandra_oper.Base.Decimal.{ℤ, pos, show_ℕ}
use qubership_cassandra_oper.Base.Strings.{join}
use qubership_cassandra_oper.Operator.DataCenters.{
  DataCenter, StringMap, get_active_replicas, calc_replica_index,
}
use qubership_cassandra_oper.Operator.Hosts.{
  pod_name, replica_name, calc_service_host_name, get_cluster_domain, calc_replica_host_name,
}

abbrev pub namespace_variable : String
namespace_variable = "$(NAMESPACE)"

-- the value of a host name that is there
or_empty : Option String → String
or_empty none = ""
or_empty (some s) = s

-- the loop over the active replicas, which breaks at the number of seeds
unfoldable pub seed_hosts : List DataCenter → ℕ → ℕ → ℕ → List ℕ → List String
unfolding or_empty calc_replica_host_name
seed_hosts dcs dc seeds ind [] = []
seed_hosts dcs dc seeds ind (replica ∷ replicas) =
    let rest = seed_hosts dcs dc seeds (suc ind) replicas in
    if leb seeds ind
    then []
    else or_empty (calc_replica_host_name true dcs dc replica namespace_variable) ∷ rest

unfoldable pub dc_seed : List DataCenter → ℕ → DataCenter → List String
dc_seed dcs i dc = elim dc.seed_list [
  | none ↦ seed_hosts dcs i dc.seeds 0 (get_active_replicas dc)
  | some seed_list ↦ if dc.deploy then seed_list else []
]

-- `ctx.Set`; the last write of a key counts
abbrev pub set_var : String → String → StringMap → StringMap
set_var k v ctx = (k, v) ∷ ctx

-- the loop over the data centers, with the context and the result
seeds_from :
    List DataCenter → ℕ → List DataCenter → StringMap → List String → StringMap × List String
seeds_from dcs i [] ctx result = (ctx, result)
seeds_from dcs i (dc ∷ rest) ctx result =
    seeds_from dcs (suc i) rest
      (set_var ("cassandraSeeds" <> show_ℕ i) (join ", " (dc_seed dcs i dc)) ctx)
      (result ++ dc_seed dcs i dc)

unfoldable pub seeds_step : List DataCenter → StringMap → StringMap
unfolding seeds_from
seeds_step dcs ctx =
    let (ctx', result) = seeds_from dcs 0 dcs ctx [] in
    set_var "cassandraSeeds" (join ", " result) ctx'
