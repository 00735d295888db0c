-- ===== src/Services/Pods/Held.antt =====
-- pkg/utils/utils.go: what the updates add to a pod is mounted.
use qubership_cassandra_oper.Base.{String, List, [], ◌∷◌, inl, inr, refl, Bool-cases}
use qubership_cassandra_oper.Base.Maps.{StringMap}
use qubership_cassandra_oper.Kube.{EnvVar, VolumeMount, Volume, PodSpec}
use qubership_cassandra_oper.Kube.Mounted.{
  MountsHeld, IsMounted, MountsHeld-join, MountsHeld-append_right, sidecars-append,
}
use qubership_cassandra_oper.Services.Resource.{TlsSettings}
use qubership_cassandra_oper.Services.Pods.{
  extend_pod, client_envs, server_envs, tls_client_update, tls_server_update, secret_volumes,
  secret_mounts,
}

pub extend_pod-IsMounted :
    (vs : List Volume) (ms : List VolumeMount) (es : List EnvVar) (pod : PodSpec)
    → MountsHeld vs ms
    → IsMounted pod
    → IsMounted (extend_pod vs ms es pod)
unfolding extend_pod
extend_pod-IsMounted vs ms es pod new (own, others) = (
  MountsHeld-join pod.volumes vs pod.container.volume_mounts ms own new,
  sidecars-append pod.volumes vs pod.sidecars others,
)

pub tls_client_update-IsMounted :
    (path : String) (tls : TlsSettings) (pod : PodSpec)
    → IsMounted pod
    → IsMounted (tls_client_update path tls pod)
unfolding tls_client_update
tls_client_update-IsMounted path tls pod h = elim (Bool-cases tls.enabled) [
  | inl on ↦ rw on (extend_pod-IsMounted _ _ (client_envs path tls) pod (inl refl, tt) h)
  | inr off ↦ rw off h
]

pub tls_server_update-IsMounted :
    (tls : TlsSettings) (name path : String) (pod : PodSpec)
    → IsMounted pod
    → IsMounted (tls_server_update tls name path pod)
unfolding tls_server_update
tls_server_update-IsMounted tls name path pod h = elim (Bool-cases tls.enabled) [
  | inl on ↦ rw on (extend_pod-IsMounted _ _ (server_envs tls path) pod (inl refl, tt) h)
  | inr off ↦ rw off h
]

pub secret_mounts-MountsHeld :
    (secrets : StringMap) → MountsHeld (secret_volumes secrets) (secret_mounts secrets)
unfolding secret_volumes secret_mounts
secret_mounts-MountsHeld [] = tt
secret_mounts-MountsHeld ((name, path) ∷ secrets) = (
  inl refl,
  MountsHeld-append_right (secret_volumes ((name, path) ∷ [])) (secret_volumes secrets)
      (secret_mounts secrets) (secret_mounts-MountsHeld secrets),
)
