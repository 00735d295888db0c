-- ===== src/Adapter/CreateDatabase.antt =====
-- impl/db_admin.go: `CreateDatabase`, with its rollback.
pub mod Rollback
pub mod Reply
use qubership_cassandra_oper.Base.{
  String, Bool, true, false, Option, none, some, List, [], ◌∷◌, ◌++◌, ◌==◌, ◌<>◌, if◌then◌else◌,
}
use qubership_cassandra_oper.Base.Go.{
  Go, Result, ok, fail, pure, raise, lift, ◌>>=◌, ◌>>◌, recovering, panic_on, case_option,
  case_result,
}
use qubership_cassandra_oper.Base.Strings.{trim_space}
use qubership_cassandra_oper.Adapter.Outside.{Outside, Event, Value, get, as_text, not_string}
use qubership_cassandra_oper.Adapter.Session.{exec, new_auto_close_session}
use qubership_cassandra_oper.Adapter.Service.{
  drop_resource, create_keyspace, create_table, create_role, grant_permissions,
}
use qubership_cassandra_oper.Adapter.Admin.{
  DbAdministration, ConnectionProperties, DbResource, new_resource, DbCreateRequest, metadata_key,
  user_resource_kind, db_resource_kind, get_supported_roles, role_to_permissions,
  get_keyspace_connection_properties, generate_uuid,
}
use qubership_cassandra_oper.Adapter.Names.{get_logical_db_name}

-- what the session's function appends to: `connectionProps` and `resources`
abbrev pub Created : Type 0
Created = List ConnectionProperties × List DbResource

pub record LogicalDatabaseDescribed : Type 0 where
  pub connection_properties : List ConnectionProperties
  pub resources : List DbResource

-- `v.(string)` without `ok` panics on any other value
unfoldable pub assert_text : Value → Go Event String
unfolding as_text
assert_text v = case_option (as_text v) (raise (not_string v)) pure

-- an error of the rollback is added to the message
abbrev pub and_error : String → String → Option String → String
and_error msg what none = msg
and_error msg what (some e) = msg <> what <> e

module _ (o : Outside) (c : DbAdministration) where
  -- a role with its grants; both errors panic
  unfoldable pub add_role : String → String → String → List String → Go Event (Unit {0})
  add_role keyspace username password permissions = do
    created ← create_role o username password
    panic_on created
    granted ← grant_permissions o keyspace username permissions
    panic_on granted

  -- the name and the password of a supported role's user
  unfoldable pub role_credentials : DbCreateRequest → String → Go Event (String × String)
  unfolding generate_uuid
  role_credentials r role =
      if role == "admin"
      then pure (r.username, r.password)
      else do name ← generate_uuid o; password ← generate_uuid o; pure ("dbaas_" <> name, password)

  -- the loop over the supported roles
  unfoldable pub create_role_users :
      DbCreateRequest → String → List String → Created → Go Event Created
  create_role_users r name [] made = pure made
  create_role_users r name (role ∷ roles) (props, resources) = do
    (username, password) ← role_credentials r role
    add_role name username password (role_to_permissions c role)
    create_role_users r name roles (
      props ++ get_keyspace_connection_properties o c name username password role ∷ [],
      resources ++ new_resource user_resource_kind username ∷ [],
    )

  -- the users of a new keyspace: one in version v1, one for each supported role otherwise
  unfoldable pub create_users : DbCreateRequest → String → Created → Go Event Created
  create_users r name (props, resources) =
      if c.api_version == "v1"
      then (do
        add_role name r.username r.password ("ALL" ∷ [])
        pure (
          props ++ get_keyspace_connection_properties o c name r.username r.password "" ∷ [],
          resources ++ new_resource user_resource_kind r.username ∷ [],
        ))
      else create_role_users r name (get_supported_roles c) (props, resources)

  -- `json.Marshal` of the request's metadata; an error panics
  unfoldable pub marshal_metadata : DbCreateRequest → Go Event String
  marshal_metadata r =
      case_result (o.marshal r.metadata)
        (λ e. raise (o.panic_value e "Failed marshaling metadata for keyspace")) pure

  -- the setting `replication`, written where it is a text
  unfoldable pub write_replication : DbCreateRequest → String → Go Event (Unit {0})
  unfolding as_text get trim_space
  write_replication r name =
      case_option (as_text (get r.settings "replication")) (pure tt) λ replication. do
        exec o ("INSERT INTO " <> name <> ".metadata (id, value) VALUES (?, ?)")
            ("replication" ∷ trim_space replication ∷ []) true
        pure tt

  unfoldable pub write_metadata : String → String → Go Event (Option String)
  write_metadata name marshaled =
      exec o ("insert into " <> name <> ".metadata (id, value) values (?, ?)")
        (metadata_key ∷ marshaled ∷ []) true

  -- what the session's function does between its deferred rollback and its end
  unfoldable pub create_database_body : DbCreateRequest → String → Go Event Created
  create_database_body r name = do
    replication ← assert_text (get r.settings "replication")
    keyspace_err ← create_keyspace o name replication
    panic_on keyspace_err
    table_err ← create_table o name "metadata"
    panic_on table_err
    marshaled ← marshal_metadata r
    write_metadata name marshaled
    write_replication r name
    create_users r name ([], new_resource db_resource_kind name ∷ [])

  -- the deferred function: drops the keyspace and the role, and panics again
  unfoldable pub rollback : DbCreateRequest → String → String → Go Event Created
  rollback r name e = do
    let msg = "Recovered with " <> e <> "\n"
    keyspace_err ← drop_resource o "keyspace" name
    let msg' = and_error msg "Rollback failed to drop keyspace with " keyspace_err
    role_err ← drop_resource o "role" r.username
    raise (and_error msg' "Rollback failed to drop role with " role_err)

  unfoldable pub create_database :
      DbCreateRequest → Go Event (Result (String × LogicalDatabaseDescribed))
  create_database r = do
    validated ← lift (get_logical_db_name o r)
    case_result validated (λ e. pure (fail e))
        λ name. do
          (props, resources) ←
              new_auto_close_session o c.session_service
                (recovering (create_database_body r name) (rollback r name))
          pure (ok (name, record { connection_properties = props; resources = resources }))
