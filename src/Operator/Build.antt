-- ===== src/Operator/Build.antt =====
-- pkg/impl/cassandra/cassandra.go: the steps of a deployment, in their order.
pub mod Claims
use qubership_cassandra_oper.Base.{
  ℕ, zero, suc, ◌+◌, String, Bool, true, false, List, [], ◌∷◌, ◌++◌, ◌<>◌, eqb, if◌then◌else◌,
}
use qubership_cassandra_oper.Base.Decimal.{show_ℕ}
use qubership_cassandra_oper.Operator.DataCenters.{
  DataCenter, StorageRequirements, get_active_replicas, deployed,
}

-- a claim has the name format, the context variable and the index that it starts from
pub data Step : Type 0 where
  create_pvc : String → String → ℕ → Bool → Bool → Step
  store_nodes : String → Step
  recycle : List String → String → String → Step
  services load_balancer statefulsets update_credentials : Step
  create_superuser : String → Step
  remove_nodes cleanup_nodes update_topology reaper rebuild drop_default_user : Step

-- the fields of the resource that the builder reads
pub record BuildSpec : Type 0 where
  pub data_centers : List DataCenter
  pub user : String
  pub recycler_install : Bool
  pub delete_pvc_on_uninstall : Bool

abbrev pub pvc_context_format : ℕ → String
pvc_context_format index = "cassandra-data-dc" <> show_ℕ index

abbrev pub nodes_context : ℕ → String
nodes_context index = "pvNodeNames" <> show_ℕ index

abbrev pub pvc_context : ℕ → ℕ → String
pvc_context index storage_index = pvc_context_format index <> "-" <> show_ℕ storage_index

-- a storage besides the first has its index in the name
unfoldable pub pvc_name_format : ℕ → ℕ → String
pvc_name_format index storage_index =
    if eqb storage_index 0
    then pvc_context_format index <> "-%v"
    else pvc_context_format index <> "-%v" <> "-" <> show_ℕ storage_index

module _ (spec : BuildSpec) where
  abbrev pub pvc_step : ℕ → ℕ → StorageRequirements → ℕ → Step
  pvc_step index storage_index storage replica =
      create_pvc (pvc_name_format index storage_index) (pvc_context index storage_index) replica
        storage.wait_pvc_bound spec.delete_pvc_on_uninstall

  unfoldable pub pvc_steps : ℕ → ℕ → StorageRequirements → List ℕ → List Step
  pvc_steps index storage_index storage [] = []
  pvc_steps index storage_index storage (replica ∷ replicas) =
      pvc_step index storage_index storage replica ∷ pvc_steps index storage_index storage replicas

  -- after its claims, a storage has the nodes of the first one stored, and is recycled
  abbrev pub after_claims : ℕ → ℕ → StorageRequirements → List Step
  after_claims index storage_index storage =
      (if eqb storage_index 0 then store_nodes (nodes_context index) ∷ [] else [])
      ++ (if spec.recycler_install
          then recycle storage.volumes (pvc_context index storage_index) (nodes_context index) ∷ []
          else [])

  unfoldable pub storage_steps : ℕ → ℕ → StorageRequirements → List ℕ → List Step
  unfolding pvc_steps
  storage_steps index storage_index storage replicas =
      pvc_steps index storage_index storage replicas ++ after_claims index storage_index storage

  unfoldable pub all_storage_steps : ℕ → ℕ → List StorageRequirements → List ℕ → List Step
  all_storage_steps index storage_index [] replicas = []
  all_storage_steps index storage_index (storage ∷ rest) replicas =
      storage_steps index storage_index storage replicas
      ++ all_storage_steps index (suc storage_index) rest replicas

  unfoldable pub center_steps : ℕ → List DataCenter → List Step
  center_steps index [] = []
  center_steps index (dc ∷ rest) =
      all_storage_steps index 0 dc.storage (get_active_replicas dc) ++ center_steps (suc index) rest

  -- `Build`
  unfoldable pub build : List Step
  build =
      center_steps 0 (deployed spec.data_centers)
      ++ services
        ∷ load_balancer
        ∷ statefulsets
        ∷ create_superuser spec.user
        ∷ update_credentials
        ∷ remove_nodes
        ∷ cleanup_nodes
        ∷ update_topology
        ∷ reaper
        ∷ rebuild
        ∷ drop_default_user
        ∷ []
