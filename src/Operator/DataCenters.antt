-- ===== src/Operator/DataCenters.antt =====
-- api/v1alpha1/cassandra_types.go: data centers and their active replicas, and the numbering of
-- replicas of pkg/impl/utils/utils.go. Counts of the resource are natural numbers.
pub mod Active
pub mod Numbering
use qubership_cassandra_oper.Base.{
  ℕ, zero, suc, ◌+◌, String, Bool, true, false, not, Option, none, some, List, [], ◌∷◌, ◌++◌, ◌==◌,
  ◌<>◌, ◌&&◌, ◌||◌, ltb, if◌then◌else◌,
}
pub use qubership_cassandra_oper.Base.Maps.{StringMap}
pub use qubership_cassandra_oper.Kube.{VolumeMount}
use qubership_cassandra_oper.Base.Decimal.{ℤ, pos, ◌+ℤ◌, show_ℕ}
use qubership_cassandra_oper.Base.Lists.{length}
use qubership_cassandra_oper.Operator.Streams.{any_match}

pub record StorageRequirements : Type 0 where
  pub mount_settings : Option VolumeMount
  pub volumes : List String
  pub wait_pvc_bound : Bool

pub record DataCenter : Type 0 where
  pub deploy : Bool
  pub name : String
  pub cluster_domain : String
  pub replicas : ℕ
  pub seeds : ℕ
  -- `none` is the nil slice
  pub seed_list : Option (List String)
  pub remove_nodes : Option (List StringMap)
  pub storage : List StorageRequirements
  pub racks : List String
  pub broadcast_address : List String
  pub listen_address : List String
  pub rpc_broadcast_address : List String
  pub rpc_listen_address : List String

-- the two inner loops of `GetActiveReplicas`
unfoldable pub key_exists : String → StringMap → Bool
key_exists replica [] = false
key_exists replica ((node_index, id) ∷ m) = replica == node_index || key_exists replica m

unfoldable pub is_removed : ℕ → List StringMap → Bool
unfolding key_exists
is_removed replica [] = false
is_removed replica (remove ∷ removes) =
    key_exists (show_ℕ replica) remove || is_removed replica removes

-- the loop over the replicas, with the rounds that are left
active_from : List StringMap → ℕ → ℕ → List ℕ
active_from removes zero replica = []
active_from removes (suc left) replica =
    let rest = active_from removes left (suc replica) in
    if is_removed replica removes then rest else replica ∷ rest

count_up : ℕ → ℕ → List ℕ
count_up zero replica = []
count_up (suc left) replica = replica ∷ count_up left (suc replica)

unfoldable pub get_active_replicas : DataCenter → List ℕ
unfolding active_from count_up
get_active_replicas dc = elim dc.remove_nodes [
  | none ↦ count_up dc.replicas 0
  | some removes ↦ active_from removes dc.replicas 0
]

unfoldable pub get_active_replicas_len : DataCenter → ℕ
get_active_replicas_len dc = length (get_active_replicas dc)

filter_dc_from : (DataCenter → Bool) → List DataCenter → List DataCenter → List DataCenter
filter_dc_from test output [] = output
filter_dc_from test output (dc ∷ input) =
    filter_dc_from test (if test dc then output ++ dc ∷ [] else output) input

unfoldable pub filter_dc : List DataCenter → (DataCenter → Bool) → List DataCenter
unfolding filter_dc_from
filter_dc input test = filter_dc_from test [] input

-- The filter that most steps apply. It is the data centers that this operator deploys.
unfoldable pub deployed : List DataCenter → List DataCenter
deployed dcs = filter_dc dcs (λ dc. dc.deploy)

-- the loop of `CalcReplicaIndex`, with the index of the data center and the sum
calc_from : Bool → ℕ → ℤ → ℕ → ℕ → List DataCenter → ℤ
calc_from separate_dc current_dc index i sum [] = pos sum
calc_from separate_dc current_dc index i sum (dc ∷ dcs) =
    let rest = calc_from separate_dc current_dc index (suc i) (sum + dc.replicas) dcs in
    if ltb i current_dc && not separate_dc then rest else pos sum +ℤ index

-- Where some data center is not deployed here, replicas are numbered within their own.
unfoldable pub calc_replica_index : List DataCenter → ℕ → ℤ → ℤ
unfolding calc_from any_match
calc_replica_index dcs current_dc index =
    calc_from (any_match (λ dc. not dc.deploy) dcs) current_dc index 0 0 dcs
