-- ===== src/Adapter/Leaks.antt =====
-- impl/db_admin.go: no handler of the adapter leaves a session open, on any path.
use qubership_cassandra_oper.Base.{String, List, [], ◌∷◌, ◌≡◌, refl}
use qubership_cassandra_oper.Base.Go.{Result, ask}
use qubership_cassandra_oper.Base.Go.Keeps.{keeps_rules, Keeps-bind, Keeps-case_option, Keeps-pure}
use qubership_cassandra_oper.Adapter.Outside.{Outside, Event, Fields}
use qubership_cassandra_oper.Adapter.Session.Live.{
  live, LeavesNone, new_auto_close_session-LeavesNone, exec-LeavesNone, query-LeavesNone,
}
use qubership_cassandra_oper.Adapter.Service.{
  execute_statement, ensure_metadata_table, upsert_metadata_setting, drop_resource, create_keyspace,
  create_table, create_role, grant_permissions, get_roles, get_roles_for_keyspace, get_all_roles,
}
use qubership_cassandra_oper.Adapter.Admin.{
  DbAdministration, DbCreateRequest, UserCreateRequest, ConnectionProperties, DbResource,
  generate_uuid, generate_user_name,
}
use qubership_cassandra_oper.Adapter.CreateDatabase.{
  Created, assert_text, add_role, role_credentials, create_role_users, create_users,
  marshal_metadata, write_metadata, write_replication, create_database_body, rollback,
  create_database,
}
use qubership_cassandra_oper.Adapter.Users.{
  value_or_panic, update_role, create_new_role, create_user_body, create_user, create_missing,
  AdditionalRole, Roles, create_additional, create_roles_from, create_roles,
}
use qubership_cassandra_oper.Adapter.Resources.{
  catch_drop_failing, drop_each, select_rows, drop_resources, get_databases, get_metadata,
  update_metadata, update_settings_body, update_settings_handler,
}

module _ (o : Outside) where
  ruleset session_rules = (keeps_rules, exec-LeavesNone, query-LeavesNone)

  execute_statement-LeavesNone : (stmt : String) → LeavesNone (execute_statement o stmt)
  unfolding execute_statement
  execute_statement-LeavesNone stmt n = search session_rules

  drop_resource-LeavesNone : (kind name : String) → LeavesNone (drop_resource o kind name)
  unfolding drop_resource
  drop_resource-LeavesNone kind name n = execute_statement-LeavesNone _ n

  create_role-LeavesNone : (role password : String) → LeavesNone (create_role o role password)
  unfolding create_role
  create_role-LeavesNone role password n = execute_statement-LeavesNone _ n

  grant_permissions-LeavesNone :
      (db role : String) (permissions : List String)
      → LeavesNone (grant_permissions o db role permissions)
  unfolding grant_permissions
  grant_permissions-LeavesNone db role [] n = search session_rules
  grant_permissions-LeavesNone db role (p ∷ ps) n =
      Keeps-bind _ _ (exec-LeavesNone o _ _ _ n) λ err.
        Keeps-case_option err _ _ (grant_permissions-LeavesNone db role ps n) (λ e. Keeps-pure _)

  get_roles-LeavesNone : (stmt : String) → LeavesNone (get_roles o stmt)
  unfolding get_roles
  get_roles-LeavesNone stmt n = search session_rules

  uuid-LeavesNone : LeavesNone (generate_uuid o)
  unfolding generate_uuid ask
  uuid-LeavesNone n = record { at = λ h l. l }

  add_role-LeavesNone :
      (c : DbAdministration) (db user pass : String) (permissions : List String)
      → LeavesNone (add_role o c db user pass permissions)
  unfolding add_role
  add_role-LeavesNone c db user pass permissions n =
      search (session_rules, create_role-LeavesNone, grant_permissions-LeavesNone)

  role_credentials-LeavesNone :
      (c : DbAdministration) (r : DbCreateRequest) (role : String)
      → LeavesNone (role_credentials o c r role)
  unfolding role_credentials
  role_credentials-LeavesNone c r role n = search (session_rules, uuid-LeavesNone)

  create_role_users-LeavesNone :
      (c : DbAdministration) (r : DbCreateRequest) (name : String) (roles : List String)
      (made : Created)
      → LeavesNone (create_role_users o c r name roles made)
  unfolding create_role_users
  create_role_users-LeavesNone c r name [] made n = search session_rules
  create_role_users-LeavesNone c r name (role ∷ roles) (props, resources) n = search (
    session_rules,
    role_credentials-LeavesNone,
    add_role-LeavesNone,
    λ (m : Created). create_role_users-LeavesNone c r name roles m n,
  )

  ruleset adapter_rules = (
    session_rules, execute_statement-LeavesNone, drop_resource-LeavesNone, create_role-LeavesNone,
    grant_permissions-LeavesNone, get_roles-LeavesNone, uuid-LeavesNone, add_role-LeavesNone,
  )

  create_users-LeavesNone :
      (c : DbAdministration) (r : DbCreateRequest) (name : String) (made : Created)
      → LeavesNone (create_users o c r name made)
  unfolding create_users
  create_users-LeavesNone c r name (props, resources) n =
      search (adapter_rules, create_role_users-LeavesNone)

  create_database_body-LeavesNone :
      (c : DbAdministration) (r : DbCreateRequest) (name : String)
      → LeavesNone (create_database_body o c r name)
  unfolding create_database_body assert_text marshal_metadata write_metadata write_replication
      create_keyspace create_table
  create_database_body-LeavesNone c r name n =
      search (adapter_rules, create_users-LeavesNone) depth 16

  rollback-LeavesNone :
      (c : DbAdministration) (r : DbCreateRequest) (name e : String)
      → LeavesNone (rollback o c r name e)
  unfolding rollback
  rollback-LeavesNone c r name e n = search adapter_rules depth 8

  -- Whatever the server answers, `CreateDatabase` ends with as many sessions open as before it,
  -- whether it returns or panics.
  pub create_database-LeavesNone :
      (c : DbAdministration) (r : DbCreateRequest) → LeavesNone (create_database o c r)
  unfolding create_database
  create_database-LeavesNone c r n =
      search
        (
          adapter_rules, create_database_body-LeavesNone, rollback-LeavesNone,
          new_auto_close_session-LeavesNone,
        )
        depth 8

  update_role-LeavesNone :
      (c : DbAdministration) (user : String) (r : UserCreateRequest)
      → LeavesNone (update_role o c user r)
  unfolding update_role get_roles_for_keyspace value_or_panic
  update_role-LeavesNone c user r n = search adapter_rules depth 8

  create_new_role-LeavesNone :
      (c : DbAdministration) (user : String) (r : UserCreateRequest)
      → LeavesNone (create_new_role o c user r)
  unfolding create_new_role
  create_new_role-LeavesNone c user r n = search adapter_rules depth 8

  create_user_body-LeavesNone :
      (c : DbAdministration) (user : String) (r : UserCreateRequest)
      → LeavesNone (create_user_body o c user r)
  unfolding create_user_body get_all_roles value_or_panic
  create_user_body-LeavesNone c user r n =
      search (adapter_rules, update_role-LeavesNone, create_new_role-LeavesNone) depth 8

  -- `CreateUser` leaves no session open.
  pub create_user-LeavesNone :
      (c : DbAdministration) (user : String) (r : UserCreateRequest)
      → LeavesNone (create_user o c user r)
  unfolding create_user generate_user_name
  create_user-LeavesNone c user r n =
      search (adapter_rules, create_user_body-LeavesNone, new_auto_close_session-LeavesNone) depth 8

  create_missing-LeavesNone :
      (c : DbAdministration) (db : String) (existing roles : List String)
      (props : List ConnectionProperties) (resources : List DbResource)
      → LeavesNone (create_missing o c db existing roles props resources)
  unfolding create_missing
  create_missing-LeavesNone c db existing [] props resources n = search adapter_rules
  create_missing-LeavesNone c db existing (role ∷ roles) props resources n = search (
    adapter_rules,
    create_user-LeavesNone,
    λ (p : List ConnectionProperties) (q : List DbResource).
        create_missing-LeavesNone c db existing roles p q n,
  )

  create_roles_from-LeavesNone :
      (c : DbAdministration) (s : Roles) (roles : List AdditionalRole)
      → LeavesNone (create_roles_from o c s roles)
  unfolding create_roles_from create_additional
  create_roles_from-LeavesNone c s [] n = search adapter_rules
  create_roles_from-LeavesNone c s (a ∷ rest) n =
      search
        (
          adapter_rules,
          create_missing-LeavesNone,
          λ (t : Roles). create_roles_from-LeavesNone c t rest n,
        )
        depth 8

  drop_each-LeavesNone :
      (statuses resources : List DbResource) → LeavesNone (drop_each o statuses resources)
  unfolding drop_each catch_drop_failing
  drop_each-LeavesNone statuses [] n = search adapter_rules
  drop_each-LeavesNone statuses (r ∷ rest) n =
      search (adapter_rules, λ (t : List DbResource). drop_each-LeavesNone t rest n) depth 8

  ruleset handler_rules = (adapter_rules, new_auto_close_session-LeavesNone)

  create_roles-LeavesNone :
      (c : DbAdministration) (roles : List AdditionalRole) → LeavesNone (create_roles o c roles)
  unfolding create_roles
  create_roles-LeavesNone c roles n = create_roles_from-LeavesNone c _ roles n

  drop_resources-LeavesNone :
      (c : DbAdministration) (resources : List DbResource)
      → LeavesNone (drop_resources o c resources)
  unfolding drop_resources
  drop_resources-LeavesNone c resources n = search (handler_rules, drop_each-LeavesNone)

  metadata_handlers-LeaveNone :
      (c : DbAdministration) (db : String) (m : Fields)
      → LeavesNone (get_databases o c)
        × LeavesNone (get_metadata o c db)
        × LeavesNone (update_metadata o c m db)
  unfolding get_databases get_metadata update_metadata select_rows
  metadata_handlers-LeaveNone c db m =
      (λ n. search handler_rules, λ n. search handler_rules, λ n. search handler_rules depth 8)

  update_settings_body-LeavesNone :
      (c : DbAdministration) (db replication : String)
      → LeavesNone (update_settings_body o c db replication)
  unfolding update_settings_body ensure_metadata_table upsert_metadata_setting
  update_settings_body-LeavesNone c db replication n = search handler_rules depth 9

  update_settings_handler-LeavesNone :
      (c : DbAdministration) (db : String) (request : Result Fields)
      → LeavesNone (update_settings_handler o c db request)
  unfolding update_settings_handler
  update_settings_handler-LeavesNone c db request n =
      search (handler_rules, update_settings_body-LeavesNone) depth 9

  module _ (c : DbAdministration) (h : List Event) where
    -- Whatever Cassandra answers, each handler of the adapter ends with as many sessions open as
    -- before it, whether it returns or panics: creation of databases, users and roles, drops, the
    -- reads and the update of metadata, and the update of settings.
    pub handlers_close_sessions :
        ((r : DbCreateRequest) → live (create_database o c r h).1 ≡ live h)
        × ((user : String) (r : UserCreateRequest) → live (create_user o c user r h).1 ≡ live h)
        × ((roles : List AdditionalRole) → live (create_roles o c roles h).1 ≡ live h)
        × ((rs : List DbResource) → live (drop_resources o c rs h).1 ≡ live h)
        × (live (get_databases o c h).1 ≡ live h)
        × ((db : String) → live (get_metadata o c db h).1 ≡ live h)
        × ((m : Fields) (db : String) → live (update_metadata o c m db h).1 ≡ live h)
        × ((db : String) (request : Result Fields)
            → live (update_settings_handler o c db request h).1 ≡ live h)
    handlers_close_sessions = (
      λ r. (create_database-LeavesNone c r (live h)).at h refl,
      λ user r. (create_user-LeavesNone c user r (live h)).at h refl,
      λ roles. (create_roles-LeavesNone c roles (live h)).at h refl,
      λ rs. (drop_resources-LeavesNone c rs (live h)).at h refl,
      ((metadata_handlers-LeaveNone c "" Fields.nil).0 (live h)).at h refl,
      λ db. ((metadata_handlers-LeaveNone c db Fields.nil).1 (live h)).at h refl,
      λ m db. ((metadata_handlers-LeaveNone c db m).2 (live h)).at h refl,
      λ db request. (update_settings_handler-LeavesNone c db request (live h)).at h refl,
    )
