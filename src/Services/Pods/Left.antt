-- ===== src/Services/Pods/Left.antt =====
-- pkg/utils/utils.go: what the updates of a pod leave as it was.
use qubership_cassandra_oper.Base.{
  String, Bool, true, false, not, none, List, ◌≡◌, ◌∙◌, refl, if◌then◌else◌,
}
use qubership_cassandra_oper.Kube.{EnvVar, VolumeMount, Volume, PodSpec}
use qubership_cassandra_oper.Kube.Variables.{env_var, env_var-append}
use qubership_cassandra_oper.Services.Resource.{TlsSettings}
use qubership_cassandra_oper.Services.Pods.{
  extend_pod, client_envs, server_envs, tls_client_update, tls_server_update,
}

-- a name that no certificate's variables have
abbrev pub IsOther : String → Type 0
IsOther n =
    (path : String) (tls : TlsSettings)
    → (env_var n (client_envs path tls) ≡ none) × (env_var n (server_envs tls path) ≡ none)

-- the first container keeps its ports and probes, and its variables of other names
pub record Leaves (pod pod' : PodSpec) : Type 0 where
  pub ports : pod'.container.ports ≡ pod.container.ports
  pub liveness : pod'.container.liveness_probe ≡ pod.container.liveness_probe
  pub readiness : pod'.container.readiness_probe ≡ pod.container.readiness_probe
  pub variables :
      (n : String) → IsOther n → env_var n pod'.container.env ≡ env_var n pod.container.env

pub Leaves-refl : (pod : PodSpec) → Leaves pod pod
Leaves-refl pod = record {
  ports = refl;
  liveness = refl;
  readiness = refl;
  variables = λ n other. refl;
}

pub Leaves-trans : {p q r : PodSpec} → Leaves p q → Leaves q r → Leaves p r
Leaves-trans a b = record {
  ports = b.ports ∙ a.ports;
  liveness = b.liveness ∙ a.liveness;
  readiness = b.readiness ∙ a.readiness;
  variables = λ n other. b.variables n other ∙ a.variables n other;
}

pub extend_pod-Leaves :
    (vs : List Volume) (ms : List VolumeMount) (es : List EnvVar) (pod : PodSpec)
    → ((n : String) → IsOther n → env_var n es ≡ none)
    → Leaves pod (extend_pod vs ms es pod)
unfolding extend_pod
extend_pod-Leaves vs ms es pod free = record {
  ports = refl;
  liveness = refl;
  readiness = refl;
  variables = λ n other. env_var-append n pod.container.env es (free n other);
}

-- the updates under a test, which may stand the other way
pub if-Leaves :
    (b : Bool) (p q r : PodSpec) → Leaves p q → Leaves p r → Leaves p (if b then q else r)
if-Leaves true p q r a b = a
if-Leaves false p q r a b = b

pub tls_client_update-Leaves :
    (path : String) (tls : TlsSettings) (pod : PodSpec)
    → Leaves pod (tls_client_update path tls pod)
unfolding tls_client_update
tls_client_update-Leaves path tls pod =
    if-Leaves (not tls.enabled) pod _ _ (Leaves-refl pod)
      (extend_pod-Leaves _ _ (client_envs path tls) pod (λ n other. (other path tls).0))

pub tls_server_update-Leaves :
    (tls : TlsSettings) (name path : String) (pod : PodSpec)
    → Leaves pod (tls_server_update tls name path pod)
unfolding tls_server_update
tls_server_update-Leaves tls name path pod =
    if-Leaves (not tls.enabled) pod _ _ (Leaves-refl pod)
      (extend_pod-Leaves _ _ (server_envs tls path) pod (λ n other. (other path tls).1))
