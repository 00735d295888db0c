-- ===== src/Adapter/Admin.antt =====
-- impl/db_admin.go: the state of `CassandraDbAdministration`, its requests and replies, and the
-- small methods that the handlers share.
use qubership_cassandra_oper.Base.{
  ℕ, String, Bool, false, not, Option, none, some, List, [], ◌∷◌, ◌==◌, ◌<>◌, ◌&&◌, if◌then◌else◌,
}
use qubership_cassandra_oper.Base.Decimal.{show_ℕ}
use qubership_cassandra_oper.Base.Go.{Go, ask, ◌>>=◌, pure}
use qubership_cassandra_oper.Adapter.Outside.{Outside, Event, uuid_drawn, Fields}
use qubership_cassandra_oper.Adapter.Session.{SessionService}

pub record DbAdministration : Type 0 where
  pub supported_roles : List String
  pub supported_features : List (String × Bool)
  pub api_version : String
  pub session_service : SessionService
  -- the entry that the constructor adds to `roleToPermissions`
  pub streaming_role_name : String
  pub streaming_role_permissions : List String

pub record ConnectionProperties : Type 0 where
  pub url : String
  pub port : ℕ
  pub username : String
  pub password : String
  pub keyspace : String
  pub contact_points : List String
  pub tls : Bool
  -- the key `role` is set only for a role that is not empty, and not in version v1
  pub role : Option String

pub data Status : Type 0 where
  unset deleted delete_failed : Status

pub record DbResource : Type 0 where
  pub kind : String
  pub name : String
  pub status : Status
  pub error_message : String

abbrev pub new_resource : String → String → DbResource
new_resource kind name = record { kind = kind; name = name; status = unset; error_message = "" }

pub record DbCreateRequest : Type 0 where
  pub metadata : Fields
  pub name_prefix : Option String
  pub password : String
  pub db_name : String
  pub settings : Fields
  pub username : String

pub record UserCreateRequest : Type 0 where
  pub db_name : String
  pub password : String
  pub role : String

pub record CreatedUser : Type 0 where
  pub connection_properties : ConnectionProperties
  pub resources : List DbResource
  pub name : String

abbrev pub metadata_key : String
metadata_key = "metadata"

abbrev pub user_resource_kind : String
user_resource_kind = "user"

abbrev pub db_resource_kind : String
db_resource_kind = "database"

unfoldable pub feature : List (String × Bool) → String → Bool
feature [] name = false
feature ((k, b) ∷ r) name = if k == name then b else feature r name

unfoldable pub get_supported_roles : DbAdministration → List String
get_supported_roles c =
    if feature c.supported_features "multiusers" then c.supported_roles else "admin" ∷ []

-- `roleToPermissions[role]`; a role that the map lacks has no permissions
unfoldable pub role_to_permissions : DbAdministration → String → List String
role_to_permissions c role =
    if role == c.streaming_role_name
    then c.streaming_role_permissions
    else if role == "admin"
    then "ALL" ∷ []
    else if role == "rw"
    then "MODIFY" ∷ "SELECT" ∷ []
    else if role == "ro"
    then "SELECT" ∷ []
    else []

module _ (o : Outside) (c : DbAdministration) where
  unfoldable pub get_keyspace_connection_properties :
      String → String → String → String → ConnectionProperties
  get_keyspace_connection_properties keyspace_name username password role =
      let conf = c.session_service.configuration in
      record {
        url = "cassandra://" <> conf.hostname <> ":" <> show_ℕ conf.port <> "/" <> keyspace_name;
        port = conf.port;
        username = username;
        password = password;
        keyspace = keyspace_name;
        contact_points = conf.hostname ∷ [];
        tls = o.tls_enabled;
        role = if not (role == "") && not (c.api_version == "v1") then some role else none;
      }

module _ (o : Outside) where
  unfoldable pub generate_uuid : Go Event String
  generate_uuid = ask o.uuid uuid_drawn

  unfoldable pub generate_user_name : Go Event String
  unfolding generate_uuid
  generate_user_name = do uuid ← generate_uuid; pure ("role_" <> uuid)
