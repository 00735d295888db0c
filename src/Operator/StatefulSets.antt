-- ===== src/Operator/StatefulSets.antt =====
-- pkg/impl/cassandra/statefulsets_step.go: the stateful sets of the replicas, one after another.
pub mod Rollout
use qubership_cassandra_oper.Base.{
  ℕ, zero, suc, ◌+◌, ◌%◌, String, Bool, true, false, Option, none, some, List, [], ◌∷◌, ◌++◌, ◌<>◌,
  eqb, ◌==◌, if◌then◌else◌,
}
use qubership_cassandra_oper.Base.Decimal.{ℤ, pos, show_ℕ}
use qubership_cassandra_oper.Base.Lists.{length, get_elem?}
use qubership_cassandra_oper.Base.Go.{
  Go, Outcome, done, panic, pure, raise, lift, ◌>>=◌, ◌>>◌, case_option,
}
use qubership_cassandra_oper.Operator.DataCenters.{
  DataCenter, StringMap, VolumeMount, StorageRequirements, get_active_replicas, calc_replica_index,
  deployed,
}
use qubership_cassandra_oper.Operator.Hosts.{replica_name}
use qubership_cassandra_oper.Operator.Cluster.{
  EnvVar, plain, field_ref, resource_ref, secret_ref, StatefulSet, Event, Cluster, must,
  delete_statefulset_and_pods, create_statefulset, wait_for_pods_ready,
}

pub record Tls : Type 0 where
  pub enabled : Bool
  pub root_ca_file_name : String
  pub signed_crt_file_name : String
  pub private_key_file_name : String
  pub keystore_pass : String

pub record Reaper : Type 0 where
  pub install : Bool
  pub secret_name : String
  pub type : String
  pub port : ℕ
  pub envs : StringMap

-- the fields of the resource that the step reads, and the namespace of the request
pub record Spec : Type 0 where
  pub data_centers : List DataCenter
  pub secret_name : String
  pub envs : StringMap
  pub tls : Tls
  pub reaper : Reaper
  pub namespace : String

-- what earlier steps left in the context: the seeds, for each data center the labels of its nodes,
-- and for each of its storages the names of its volume claims; and the password of the trust store
pub record Context : Type 0 where
  pub seeds : String
  pub node_labels : ℕ → List StringMap
  pub pvc_names : ℕ → ℕ → List String
  pub truststore_password : String

unfoldable pub bool_text : Bool → String
bool_text true = "true"
bool_text false = "false"

abbrev pub configuration_path : String
configuration_path = "/var/lib/cassandra/configuration/"

unfoldable pub plain_envs : StringMap → List EnvVar
plain_envs [] = []
plain_envs ((name, value) ∷ m) = plain name value ∷ plain_envs m

-- the environment of the reaper's container, empty where it is not installed
unfoldable pub reaper_envs : Spec → Context → List EnvVar
unfolding bool_text plain_envs
reaper_envs spec ctx =
    if spec.reaper.install
    then secret_ref "REAPER_CASS_AUTH_USERNAME" spec.secret_name "username"
      ∷ secret_ref "REAPER_CASS_AUTH_PASSWORD" spec.secret_name "password"
      ∷ plain "REAPER_JMX_AUTH_USERNAME" "reaperUser"
      ∷ plain "REAPER_JMX_AUTH_PASSWORD" "reaperPass"
      ∷ plain "REAPER_STORAGE_TYPE" "cassandra"
      ∷ plain "REAPER_CASS_CLUSTER_NAME" spec.namespace
      ∷ plain "REAPER_CASS_CONTACT_POINTS" "[{\"host\":\"127.0.0.1\",\"port\":9042}]"
      ∷ plain "REAPER_CASS_KEYSPACE" "reaper_db"
      ∷ plain "REAPER_CASS_AUTH_ENABLED" "true"
      ∷ plain "REAPER_DATACENTER_AVAILABILITY" "SIDECAR"
      ∷ secret_ref "REAPER_AUTH_USER" spec.reaper.secret_name "username"
      ∷ secret_ref "REAPER_AUTH_PASSWORD" spec.reaper.secret_name "password"
      ∷ plain "REAPER_CASS_NATIVE_PROTOCOL_SSL_ENCRYPTION_ENABLED" (bool_text spec.tls.enabled)
      ∷ plain "JAVA_OPTS" (
          "-Djavax.net.ssl.trustStore=/tmp/truststore.jks\n-Djavax.net.ssl.trustStorePassword="
          <> ctx.truststore_password)
      ∷ plain "REAPER_SERVER_TYPE" spec.reaper.type
      ∷ plain "REAPER_SERVER_APP_PORT" (show_ℕ spec.reaper.port)
      ∷ plain_envs spec.reaper.envs
    else []

unfoldable pub tls_envs : Tls → List EnvVar
tls_envs tls =
    if tls.enabled
    then plain "TLS" "true"
      ∷ plain "TLS_SIGNED" (configuration_path <> tls.signed_crt_file_name)
      ∷ plain "TLS_KEY" (configuration_path <> tls.private_key_file_name)
      ∷ plain "TLS_CA" (configuration_path <> tls.root_ca_file_name)
      ∷ plain "TLS_PASS" tls.keystore_pass
      ∷ []
    else []

-- the part of the environment that the replicas of a data center share
unfoldable pub cassandra_envs : Spec → Context → DataCenter → List EnvVar
unfolding tls_envs plain_envs
cassandra_envs spec ctx dc =
    (field_ref "NAMESPACE" "metadata.namespace"
      ∷ resource_ref "MEMORY_LIMIT" "limits.memory"
      ∷ field_ref "CQLSH_HOST" "status.podIP"
      ∷ field_ref "POD_IP" "status.podIP"
      ∷ plain "CASSANDRA_SEEDS" ctx.seeds
      ∷ plain "CASSANDRA_DC" dc.name
      ∷ plain "RUN_AS_ROOT" "false"
      ∷ plain "MEM_OVERHEAD" "128"
      ∷ [])
    ++ tls_envs spec.tls
    ++ plain_envs spec.envs

-- `list[index]`, which panics out of range
unfoldable pub element : {A : Type 0} → List A → ℕ → Outcome A
element xs i = elim (get_elem? xs i) [
  | none ↦ panic "runtime error: index out of range"
  | some a ↦ done a
]

-- `list[index%len(list)]` of a list that is not empty, and the default of an empty one
unfoldable pub cyclic : {A : Type 0} → A → List A → ℕ → A
cyclic default [] i = default
cyclic default (x ∷ xs) i = elim (get_elem? (x ∷ xs) (i % length (x ∷ xs))) [
  | none ↦ default
  | some a ↦ a
]

-- an address of the replica, where the data center lists addresses of the kind
unfoldable pub address_env : String → List String → ℕ → Go Event (List EnvVar)
unfolding element
address_env name [] replica_index = pure []
address_env name (a ∷ rest) replica_index = do
  address ← lift (element (a ∷ rest) replica_index)
  pure (plain name address ∷ [])

-- `m[key] = value`
unfoldable pub put_mount :
    String
    → Option VolumeMount
    → List (String × Option VolumeMount)
    → List (String × Option VolumeMount)
put_mount key value [] = (key, value) ∷ []
put_mount key value ((k, v) ∷ m) =
    if k == key then (key, value) ∷ m else (k, v) ∷ put_mount key value m

-- the claims of the replica; no claims of a storage is a division by zero
unfoldable pub pvc_mounts_from :
    Context
    → ℕ
    → ℕ
    → ℕ
    → List StorageRequirements
    → List (String × Option VolumeMount)
    → Go Event (List (String × Option VolumeMount))
unfolding element put_mount
pvc_mounts_from ctx dc i storage_index [] mounts = pure mounts
pvc_mounts_from ctx dc i storage_index (storage ∷ rest) mounts = do
  let names = ctx.pvc_names dc storage_index
  name ← lift (
      if eqb (length names) 0
      then panic "runtime error: integer divide by zero"
      else element names (i % length names))
  pvc_mounts_from ctx dc i (suc storage_index) rest (put_mount name storage.mount_settings mounts)

module _ (k : Cluster) (spec : Spec) (ctx : Context) (dcs : List DataCenter) where
  -- the stateful set of a replica, with the reaper's environment so far
  unfoldable pub build_statefulset : ℕ → DataCenter → ℕ → ℕ → List EnvVar → Go Event StatefulSet
  build_statefulset dc_index dc i replica_index reaper_env = do
    broadcast ← address_env "CASSANDRA_BROADCAST_ADDRESS" dc.broadcast_address replica_index
    listen ← address_env "CASSANDRA_LISTEN_ADDRESS" dc.listen_address replica_index
    rpc_broadcast ←
        address_env "CASSANDRA_BROADCAST_RPC_ADDRESS" dc.rpc_broadcast_address replica_index
    rpc_listen ← address_env "CASSANDRA_RPC_ADDRESS" dc.rpc_listen_address replica_index
    mounts ← pvc_mounts_from ctx dc_index i 0 dc.storage []
    pure (record {
      name = replica_name (calc_replica_index dcs dc_index (pos replica_index));
      data_center = dc.name;
      env =
          cassandra_envs spec ctx dc
          ++ plain "CASSANDRA_RACK" (cyclic "rack1" dc.racks replica_index) ∷ broadcast
          ++ listen
          ++ rpc_broadcast
          ++ rpc_listen;
      reaper_env = reaper_env;
      node_selector = cyclic [] (ctx.node_labels dc_index) replica_index;
      pvc_mounts = mounts;
    })

  -- the old stateful set goes, the new one comes, and its pod is waited for
  unfoldable pub replace_statefulset : ℕ → ℕ → StatefulSet → Go Event (Unit {0})
  replace_statefulset dc_index replica_index ss = do
    must k (delete_statefulset_and_pods k ss.name)
        ("Cassandra statefulset " <> ss.name <> " deletion failed")
    must k (create_statefulset k ss)
        ("Cassandra dc" <> show_ℕ dc_index <> " " <> show_ℕ replica_index <> " statefulset failed")
    must k (wait_for_pods_ready k ss.name) "Pods waiting failed"

  -- the reaper's environment grows by the data center at each replica
  abbrev pub grown : DataCenter → List EnvVar → List EnvVar
  grown dc reaper_env =
      if spec.reaper.install
      then reaper_env ++ plain "REAPER_CASS_LOCAL_DC" dc.name ∷ []
      else reaper_env

  unfoldable pub deploy_replicas :
      ℕ → DataCenter → ℕ → List ℕ → List EnvVar → Go Event (List EnvVar)
  deploy_replicas dc_index dc i [] reaper_env = pure reaper_env
  deploy_replicas dc_index dc i (replica_index ∷ rest) reaper_env = do
    ss ← build_statefulset dc_index dc i replica_index (grown dc reaper_env)
    replace_statefulset dc_index replica_index ss
    deploy_replicas dc_index dc (suc i) rest (grown dc reaper_env)

  unfoldable pub deploy_centers : ℕ → List DataCenter → List EnvVar → Go Event (Unit {0})
  deploy_centers dc_index [] reaper_env = pure tt
  deploy_centers dc_index (dc ∷ rest) reaper_env = do
    reaper_env' ← deploy_replicas dc_index dc 0 (get_active_replicas dc) reaper_env
    deploy_centers (suc dc_index) rest reaper_env'

-- `Execute`
unfoldable pub statefulset_step : Cluster → Spec → Context → Go Event (Unit {0})
statefulset_step k spec ctx =
    let dcs = deployed spec.data_centers in
    deploy_centers k spec ctx dcs 0 dcs (reaper_envs spec ctx)
