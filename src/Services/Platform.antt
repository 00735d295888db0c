-- ===== src/Services/Platform.antt =====
-- What the steps of the services operator do outside themselves, and the answers of Kubernetes, of
-- the pods, of Cassandra and of the libraries.
use qubership_cassandra_oper.Base.{ℕ, String, Bool, Option, List, ◌<>◌}
use qubership_cassandra_oper.Base.Maps.{StringMap}
use qubership_cassandra_oper.Base.Go.{
  Go, Result, pure, raise, ask, ◌>>=◌, case_option, case_result, panic_error,
}
use qubership_cassandra_oper.Kube.{Workload, SimpleService}

-- a pod with the name of its first container
pub record Pod : Type 0 where
  pub name : String
  pub namespace : String
  pub container : String

-- the settings of the driver's cluster
pub record Connection : Type 0 where
  pub host : String
  pub user : String
  pub password : String
  pub root_cert_path : String
  pub tls_enabled : Bool
  pub keyspace : String

pub data Action : Type 0 where
  read_secret read_config_map : String → Action
  connected : Connection → Action
  -- the row of `ssh.backup` with the id
  selected : String → Action
  -- a statement with its arguments
  executed : String → List String → Action
  generated_keys : Action
  stored_secret : String → StringMap → Action
  listed_pods : StringMap → Action
  -- a command on a pod
  ran : Pod → String → Action
  hashed : List String → Action
  deleted_service : String → Action
  created_service : SimpleService → Action
  deleted_workload : String → Action
  created : Workload → Action
  -- pods with the labels
  waited : StringMap → Action
  waited_tests : String → Action

-- Each answer may depend on all that happened before.
pub record Platform : Type 0 where
  pub secret : List Action → String → Result StringMap
  pub config_map : List Action → String → Result StringMap
  pub connect : List Action → Connection → Option String
  -- the key in the row, where there is one
  pub select : List Action → String → Option String
  -- the panic of `Exec(true)`
  pub execute : List Action → String → List String → Option String
  -- the public and the private key of `GenerateKeyPair`
  pub generate_key_pair : List Action → Result (String × String)
  pub store_secret : List Action → String → StringMap → Option String
  -- `none` is the nil list
  pub list_pods : List Action → StringMap → Option (List Pod)
  pub exec_remote : List Action → Pod → String → Option String
  -- the annotations of the pod with the hash of the secrets
  pub add_cred_hash : List Action → List String → StringMap → Result StringMap
  pub create_service : List Action → SimpleService → Option String
  pub delete_workload : List Action → String → Option String
  pub create : List Action → Workload → Option String
  pub wait_for_pods : List Action → StringMap → Option String
  pub wait_for_tests : List Action → String → Option String
  pub panic_value : String → String → String
  -- `core.OptionalString`, `core.MaxInt` and
  -- the environment variable CLOUD_PUBLIC_HOST
  pub optional_string : String → String → String
  pub max_int : ℕ → ℕ → ℕ
  pub public_host : String
  -- the keys of the core library for the labels of the application and of the microservice
  pub label_app : String
  pub label_microservice : String
  -- the order in which the runtime goes through a map
  pub iterate : StringMap → StringMap

-- `*p`, or a field of what `p` points to
unfoldable pub deref : {A : Type 0} → Option A → Go Action A
deref p =
    case_option p (raise "runtime error: invalid memory address or nil pointer dereference") pure

module _ (k : Platform) where
  -- `err` of an action, and `core.PanicError` on it
  unfoldable pub demand : (List Action → Option String) → Action → String → Go Action (Unit {0})
  demand answer action msg = do err ← ask answer action; panic_error k.panic_value err msg

  -- the value of an action, or the panic of `core.PanicError`
  unfoldable pub obtain : {A : Type 0} → (List Action → Result A) → Action → String → Go Action A
  obtain answer action msg = do
    result ← ask answer action
    case_result result (λ e. raise (k.panic_value e msg)) pure

  -- `session.Query(stmt, args).Exec(true)`
  unfoldable pub execute : String → List String → Go Action (Unit {0})
  execute stmt args = do
    err ← ask (λ h. k.execute h stmt args) (executed stmt args)
    case_option err (pure tt) (λ e. raise ("Error during query execution " <> stmt <> ": " <> e))
