-- ===== src/Services/Pods.antt =====
-- pkg/utils/utils.go: certificates, ports and names of the pods of the services, and the volumes
-- of their secrets.
pub mod Held
pub mod Left
use qubership_cassandra_oper.Base.{
  ℕ, String, Bool, true, false, not, Option, none, some, List, [], ◌∷◌, ◌++◌, ◌<>◌, if◌then◌else◌,
}
use qubership_cassandra_oper.Base.Maps.{StringMap}
use qubership_cassandra_oper.Base.Strings.{replace_char, has_infix}
use qubership_cassandra_oper.Kube.{
  EnvVar, plain, VolumeMount, KeyToPath, VolumeProjection, config_map_items, secret_items,
  VolumeSource, secret_volume, projected, Volume, Container, PodSpec, writable_mount,
}
use qubership_cassandra_oper.Services.Resource.{TlsSettings}

unfoldable pub bool_text : Bool → String
bool_text true = "true"
bool_text false = "false"

-- volumes, and mounts and variables of the first container, at the end of a pod's
unfoldable pub extend_pod : List Volume → List VolumeMount → List EnvVar → PodSpec → PodSpec
extend_pod volumes mounts envs pod = record pod {
  volumes = pod.volumes ++ volumes;
  container = record (pod.container) {
    volume_mounts = pod.container.volume_mounts ++ mounts;
    env = pod.container.env ++ envs;
  };
}

abbrev pub root_ca_item : TlsSettings → KeyToPath
root_ca_item tls = record { key = tls.root_ca_file_name; path = tls.root_ca_file_name }

abbrev pub client_envs : String → TlsSettings → List EnvVar
client_envs root_cert_path tls =
    plain "TLS_ENABLED" (bool_text tls.enabled)
    ∷ plain "TLS_ROOTCERT" (root_cert_path <> tls.root_ca_file_name)
    ∷ []

abbrev pub server_envs : TlsSettings → String → List EnvVar
server_envs tls mount_path =
    plain "INTERNAL_TLS_ENABLED" (bool_text tls.enabled)
    ∷ plain "INTERNAL_TLS_ROOTCERT" (mount_path <> tls.root_ca_file_name)
    ∷ plain "INTERNAL_TLS_CERTIFICATE_FILENAME" (mount_path <> tls.signed_crt_file_name)
    ∷ plain "INTERNAL_TLS_KEY_FILENAME" (mount_path <> tls.private_key_file_name)
    ∷ plain "INTERNAL_TLS_PATH" mount_path
    ∷ []

unfoldable pub tls_client_update : String → TlsSettings → PodSpec → PodSpec
unfolding extend_pod bool_text
tls_client_update root_cert_path tls pod =
    if not tls.enabled
    then pod
    else extend_pod
        (record {
          name = "root-ca";
          source = projected (secret_items tls.root_ca_secret_name (root_ca_item tls ∷ []) ∷ []);
        }
          ∷ [])
        (writable_mount "root-ca" root_cert_path ∷ []) (client_envs root_cert_path tls) pod

unfoldable pub tls_server_update : TlsSettings → String → String → PodSpec → PodSpec
unfolding extend_pod bool_text
tls_server_update tls secret_name mount_path pod =
    if not tls.enabled
    then pod
    else extend_pod (record { name = secret_name; source = secret_volume secret_name none } ∷ [])
        (record { name = secret_name; mount_path = mount_path; read_only = true } ∷ [])
        (server_envs tls mount_path) pod

unfoldable pub get_http_port : Bool → ℕ
get_http_port tls_enabled = if tls_enabled then 8443 else 8080

unfoldable pub get_http_protocol : Bool → String
get_http_protocol tls_enabled = if tls_enabled then "https" else "http"

-- `v1.URISchemeHTTPS` and `v1.URISchemeHTTP`
unfoldable pub get_uri_scheme : Bool → String
get_uri_scheme tls_enabled = if tls_enabled then "HTTPS" else "HTTP"

unfoldable pub is_tls_enable_for_dbaas : String → Bool → Bool
unfolding has_infix
is_tls_enable_for_dbaas aggregator_registration_address tls_enabled =
    if not (has_infix "https" aggregator_registration_address) then false else tls_enabled

unfoldable pub sanitize_name : String → String
unfolding replace_char
sanitize_name name = replace_char 46 "-" name

-- the loop over the secrets of a deployment: the volumes, which only their owner can read, and
-- their mounts
unfoldable pub secret_volumes : StringMap → List Volume
secret_volumes [] = []
secret_volumes ((secret_name, mount_path) ∷ secrets) =
    record { name = sanitize_name secret_name; source = secret_volume secret_name (some 256) }
    ∷ secret_volumes secrets

unfoldable pub secret_mounts : StringMap → List VolumeMount
secret_mounts [] = []
secret_mounts ((secret_name, mount_path) ∷ secrets) =
    record { name = sanitize_name secret_name; mount_path = mount_path; read_only = true }
    ∷ secret_mounts secrets
