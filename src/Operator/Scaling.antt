-- ===== src/Operator/Scaling.antt =====
-- pkg/impl/cassandra/scaling.go: nodes that are removed from the cluster.
pub mod Inactive
pub mod Harmless
pub mod Removed
use qubership_cassandra_oper.Base.{
  ℕ, suc, String, Bool, false, not, none, some, List, [], ◌∷◌, ◌<>◌, ◌&&◌, ltb,
}
use qubership_cassandra_oper.Base.Decimal.{ℤ, atoi}
use qubership_cassandra_oper.Base.Lists.{length}
use qubership_cassandra_oper.Base.Go.{Go, pure, raise, ◌>>=◌, ◌>>◌, case_option}
use qubership_cassandra_oper.Operator.Streams.{any_match, filter}
use qubership_cassandra_oper.Operator.DataCenters.{
  DataCenter, StringMap, calc_replica_index, deployed,
}
use qubership_cassandra_oper.Operator.Hosts.{replica_name}
use qubership_cassandra_oper.Operator.Cluster.{
  Event, Cluster, must, must_pods, delete_statefulset_and_pods, run_ssh_on_pod,
}

-- `RemoveNodes != nil && len(RemoveNodes) > 0`
unfoldable pub has_nodes_to_remove : DataCenter → Bool
has_nodes_to_remove dc = elim dc.remove_nodes [ none ↦ false | some l ↦ ltb 0 (length l) ]

unfoldable pub remove_nodes_condition : Bool → List DataCenter → Bool
unfolding any_match filter has_nodes_to_remove
remove_nodes_condition clean_deploy dcs =
    not clean_deploy && any_match has_nodes_to_remove (filter (λ (dc : DataCenter). dc.deploy) dcs)

module _ (k : Cluster) (dcs : List DataCenter) where
  -- the number of a node, or a panic
  unfoldable pub node_number : String → Go Event ℤ
  unfolding atoi
  node_number node_index =
      case_option (atoi node_index)
        (raise (k.panic_value node_index ("Could not pars nodeIndex from " <> node_index))) pure

  -- `nodetool removenode` on the first pod; its error is only logged
  unfoldable pub removed_on : String → List String → Go Event (Unit {0})
  removed_on id [] = raise "runtime error: index out of range [0] with length 0"
  removed_on id (pod ∷ pods) = do run_ssh_on_pod k pod ("nodetool removenode -- " <> id); pure tt

  unfoldable pub remove_node_id : String → Go Event (Unit {0})
  unfolding removed_on
  remove_node_id id = do pods ← must_pods k; removed_on id pods

  unfoldable pub remove_node : ℕ → String → String → Go Event (Unit {0})
  unfolding node_number
  remove_node index node_index id = do
    n ← node_number node_index
    let name = replica_name (calc_replica_index dcs index n)
    must k (delete_statefulset_and_pods k name)
        ("Cassandra statefulset " <> name <> " deletion failed")
    remove_node_id id

  unfoldable pub remove_map : ℕ → StringMap → Go Event (Unit {0})
  remove_map index [] = pure tt
  remove_map index ((node_index, id) ∷ m) = do remove_node index node_index id; remove_map index m

  unfoldable pub remove_maps : ℕ → List StringMap → Go Event (Unit {0})
  remove_maps index [] = pure tt
  remove_maps index (m ∷ ms) = do remove_map index m; remove_maps index ms

  -- a data center without nodes to remove is passed over
  unfoldable pub remove_from_centers : ℕ → List DataCenter → Go Event (Unit {0})
  remove_from_centers index [] = pure tt
  remove_from_centers index (dc ∷ rest) = do
    case_option dc.remove_nodes (pure tt) (remove_maps index)
    remove_from_centers (suc index) rest

-- `RemoveNodes.Execute`
unfoldable pub remove_nodes_step : Cluster → List DataCenter → Go Event (Unit {0})
remove_nodes_step k data_centers =
    let dcs = deployed data_centers in remove_from_centers k dcs 0 dcs
