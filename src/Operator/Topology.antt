-- ===== src/Operator/Topology.antt =====
-- pkg/impl/utils/utils.go, system_keyspaces.go, nodetool_rebuild.go, scaling.go: the replication of
-- the system keyspaces, and nodetool commands on all pods.
pub mod Rebuild
pub mod Altered
use qubership_cassandra_oper.Base.{
  ℕ, suc, String, Bool, true, false, not, Option, none, some, List, [], ◌∷◌, ◌<>◌, ◌&&◌, eqb,
  if◌then◌else◌,
}
use qubership_cassandra_oper.Base.Go.{
  Go, Result, pure, raise, gets, ask, ◌>>=◌, ◌>>◌, case_option, case_result, panic_error,
}
use qubership_cassandra_oper.Operator.Streams.{find_first, map, sum}
use qubership_cassandra_oper.Operator.DataCenters.{DataCenter, get_active_replicas_len}
use qubership_cassandra_oper.Operator.Hosts.{get_replication_factor}
use qubership_cassandra_oper.Operator.Cluster.{
  Event, connected, counted_peers, Cluster, must_pods, run_ssh_on_pod, exec,
}

unfoldable pub existing_dc : List DataCenter → Option DataCenter
unfolding find_first
existing_dc dcs = find_first (λ (dc : DataCenter). not dc.deploy) dcs

unfoldable pub total_replicas : List DataCenter → ℕ
unfolding map sum
total_replicas dcs = sum (map get_active_replicas_len dcs)

-- `replicasDeployed` starts at -1 and stays there where the scan fails
unfoldable pub counted_replicas : Option ℕ → ℕ
counted_replicas none = 0
counted_replicas (some peers) = suc peers

abbrev pub system_keyspaces : List String
system_keyspaces = "system_traces" ∷ "system_distributed" ∷ "system_auth" ∷ []

abbrev pub alter_keyspace_statement : String → String → String
alter_keyspace_statement keyspace replication =
    "alter KEYSPACE " <> keyspace <> " WITH replication = {'class': 'NetworkTopologyStrategy', "
    <> replication <> "}"

-- the user of the resource, and the password of the context
module _ (k : Cluster) (user password : String) where
  unfoldable pub get_session : Go Event (Unit {0})
  get_session = do
    err ← ask (λ h. k.connect h user password) (connected user password)
    panic_error k.panic_value err "failed to create cassandra session"

  unfoldable pub is_all_dcs_deployed : List DataCenter → Go Event Bool
  unfolding existing_dc get_session counted_replicas
  is_all_dcs_deployed dcs = case_option (existing_dc dcs) (pure false) λ _. do
    get_session
    peers ← ask k.peers counted_peers
    pure (eqb (total_replicas dcs) (counted_replicas peers))

  -- one statement for each keyspace; an error panics
  unfoldable pub alter_keyspaces : String → List String → Go Event (Unit {0})
  alter_keyspaces replication [] = pure tt
  alter_keyspaces replication (keyspace ∷ rest) = do
    exec k (alter_keyspace_statement keyspace replication) true
    alter_keyspaces replication rest

  -- errors of nodetool are only logged
  unfoldable pub run_commands : String → List String → Go Event (Unit {0})
  run_commands pod [] = pure tt
  run_commands pod (command ∷ rest) = do run_ssh_on_pod k pod command; run_commands pod rest

  unfoldable pub run_on_pods : List String → List String → Go Event (Unit {0})
  run_on_pods [] commands = pure tt
  run_on_pods (pod ∷ pods) commands = do run_commands pod commands; run_on_pods pods commands

  unfoldable pub repair_commands : List String → List String
  repair_commands [] = []
  repair_commands (keyspace ∷ rest) =
      ("nodetool repair -full " <> keyspace <> " 2> /dev/null") ∷ repair_commands rest

  -- `UpdateSystemKeyspacesTopology`
  unfoldable pub update_system_keyspaces_topology : List DataCenter → Go Event (Unit {0})
  update_system_keyspaces_topology dcs = do
    all_deployed ← is_all_dcs_deployed dcs
    get_session
    alter_keyspaces (get_replication_factor all_deployed dcs) system_keyspaces
    pods ← must_pods k
    run_on_pods pods (repair_commands system_keyspaces)

  -- `ExecuteNodetoolCommand`, where the pods' commands run in the order of their start
  unfoldable pub execute_nodetool_command : String → Go Event (Unit {0})
  execute_nodetool_command command = do
    pods ← must_pods k
    run_on_pods pods ((command <> " 2> /dev/null") ∷ [])

  -- `CleanupNodes`
  unfoldable pub cleanup_step : List DataCenter → Go Event (Unit {0})
  cleanup_step dcs = do
    all_deployed ← is_all_dcs_deployed dcs
    if all_deployed then execute_nodetool_command "nodetool cleanup" else pure tt

  -- `NodetoolRebuild`: the condition, and the commands, each of which panics on an error
  unfoldable pub rebuild_condition : Bool → List DataCenter → Go Event Bool
  unfolding is_all_dcs_deployed
  rebuild_condition clean_deploy dcs = if clean_deploy then is_all_dcs_deployed dcs else pure false

  unfoldable pub rebuild_pods : String → List String → Go Event (Unit {0})
  rebuild_pods name [] = pure tt
  rebuild_pods name (pod ∷ pods) = do
    answer ← run_ssh_on_pod k pod ("nodetool rebuild -- " <> name <> " 2> /dev/null")
    case_result answer (λ e. raise (k.panic_value e "Could not rebuild node")) (λ _. pure tt)
    rebuild_pods name pods

  -- the type assertion of the nil interface panics where every data center is deployed
  unfoldable pub rebuild : List DataCenter → Go Event (Unit {0})
  unfolding existing_dc
  rebuild dcs =
      case_option (existing_dc dcs)
        (raise "interface conversion: interface {} is nil, not *v1alpha1.DataCenter")
        λ dc. do pods ← must_pods k; rebuild_pods dc.name pods
