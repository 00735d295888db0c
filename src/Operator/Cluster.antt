-- ===== src/Operator/Cluster.antt =====
-- What the operator's steps do outside themselves: the events of a run, the resource's fields,
-- and the answers of Kubernetes, of the pods and of Cassandra.
use qubership_cassandra_oper.Base.{
  ℕ, String, Bool, Option, none, some, List, [], ◌∷◌, ◌<>◌, if◌then◌else◌,
}
use qubership_cassandra_oper.Base.Go.{
  Go, Result, ok, fail, pure, raise, ask, ◌>>=◌, case_option, case_result, panic_error,
}
use qubership_cassandra_oper.Operator.DataCenters.{StringMap, VolumeMount}
pub use qubership_cassandra_oper.Kube.{EnvVar, plain, field_ref, resource_ref, secret_ref}

-- what distinguishes the stateful set of one replica from the next
pub record StatefulSet : Type 0 where
  pub name : String
  pub data_center : String
  pub env : List EnvVar
  pub reaper_env : List EnvVar
  pub node_selector : StringMap
  pub pvc_mounts : List (String × Option VolumeMount)

-- a service: its labels, selectors and ports, and whether it is headless and keeps the client's pod
pub record ServiceTemplate : Type 0 where
  pub name : String
  pub headless : Bool
  pub client_affinity : Bool
  pub labels : StringMap
  pub selectors : StringMap
  pub ports : List (String × ℕ)

-- an ingress: its annotations, and its one rule from a host to a port of the common service
pub record Ingress : Type 0 where
  pub name : String
  pub annotations : StringMap
  pub host : String
  pub service : String
  pub port : ℕ

pub data Event : Type 0 where
  -- `DeleteStatefulsetAndPods`, `CreateRuntimeObject` and `WaitForPodsReady` of a stateful set
  deleted : String → Event
  created : StatefulSet → Event
  waited : String → Event
  -- `CreateRuntimeObject` and `DeleteRuntimeObject` of a service
  applied : ServiceTemplate → Event
  removed : String → Event
  -- `CreateRuntimeObject` of an ingress
  exposed : Ingress → Event
  listed_pods : Event
  ssh : String → String → Event
  -- a session with its user and password, and a statement on it
  connected : String → String → Event
  query : String → Event
  counted_peers : Event

-- Each answer may depend on all that happened before.
pub record Cluster : Type 0 where
  pub delete : List Event → String → Option String
  pub create : List Event → StatefulSet → Option String
  pub wait : List Event → String → Option String
  pub apply : List Event → ServiceTemplate → Option String
  pub expose : List Event → Ingress → Option String
  pub pods : List Event → Result (List String)
  pub exec_remote : List Event → String → String → Result String
  pub connect : List Event → String → String → Option String
  pub exec : List Event → String → Option String
  -- the count of `system.peers`, where the scan gives one
  pub peers : List Event → Option ℕ
  pub panic_value : String → String → String

module _ (k : Cluster) where
  unfoldable pub delete_statefulset_and_pods : String → Go Event (Option String)
  delete_statefulset_and_pods name = ask (λ h. k.delete h name) (deleted name)

  unfoldable pub create_statefulset : StatefulSet → Go Event (Option String)
  create_statefulset ss = ask (λ h. k.create h ss) (created ss)

  unfoldable pub wait_for_pods_ready : String → Go Event (Option String)
  wait_for_pods_ready name = ask (λ h. k.wait h name) (waited name)

  -- an `err` and its `PanicError`
  unfoldable pub must : Go Event (Option String) → String → Go Event (Unit {0})
  must m msg = do err ← m; panic_error k.panic_value err msg

  -- pkg/impl/utils/utils.go: `FindPodsByLabels` and the check that there is a pod
  abbrev pub some_pods : Result (List String) → Result (List String)
  some_pods (fail e) = fail e
  some_pods (ok []) = fail "Cassandra pods not found"
  some_pods (ok (pod ∷ pods)) = ok (pod ∷ pods)

  unfoldable pub get_all_cassandra_pods : Go Event (Result (List String))
  get_all_cassandra_pods = ask (λ h. some_pods (k.pods h)) listed_pods

  unfoldable pub run_ssh_on_pod : String → String → Go Event (Result String)
  run_ssh_on_pod pod cmd = ask (λ h. k.exec_remote h pod cmd) (ssh pod cmd)

  -- the pods, or a panic with the error
  unfoldable pub must_pods : Go Event (List String)
  must_pods = do
    found ← get_all_cassandra_pods
    case_result found (λ e. raise (k.panic_value e "Cassandra pods listing failed")) pure

  -- qubership-cql-driver: `ExecInAutoCloseSession`, with the error of the session or the function
  unfoldable pub exec_in_session :
      String → String → Go Event (Option String) → Go Event (Option String)
  exec_in_session user password session_func = do
    err ← ask (λ h. k.connect h user password) (connected user password)
    case_option err session_func (λ e. pure (some e))

  -- `Query(stmt).Exec(panicOnError)`
  unfoldable pub exec : String → Bool → Go Event (Option String)
  exec stmt panic_on_error = do
    err ← ask (λ h. k.exec h stmt) (query stmt)
    case_option err (pure none) λ e.
        if panic_on_error
        then raise ("Error during query execution " <> stmt <> ": " <> e)
        else pure (some e)
