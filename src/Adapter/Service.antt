-- ===== src/Adapter/Service.antt =====
-- impl/cassandra/cassandraService.go: the statements that the adapter runs on a session.
use qubership_cassandra_oper.Base.{
  String, true, false, Option, none, some, List, [], ◌∷◌, ◌==◌, ◌<>◌, if◌then◌else◌,
}
use qubership_cassandra_oper.Base.Go.{Go, Result, ok, fail, pure, gets, ask, case_option, ◌>>=◌}
use qubership_cassandra_oper.Base.Strings.{contains}
use qubership_cassandra_oper.Adapter.Outside.{Outside, Event, query, Row}
use qubership_cassandra_oper.Adapter.Session.{exec}

abbrev pub drop_statement : String → String → String
drop_statement kind name = "drop " <> kind <> " if exists " <> name

abbrev pub create_keyspace_statement : String → String → String
create_keyspace_statement db_name settings =
    "create KEYSPACE " <> db_name <> " WITH REPLICATION = " <> settings

abbrev pub create_role_statement : String → String → String
create_role_statement role password =
    "CREATE ROLE IF NOT EXISTS '" <> role <> "' WITH PASSWORD = '" <> password
    <> "' AND LOGIN = true"

abbrev pub grant_statement : String → String → String → String
grant_statement permission db_name role =
    "GRANT " <> permission <> " on KEYSPACE " <> db_name <> " to '" <> role <> "'"

-- `RowData.GetValue`: the first column of that name
unfoldable pub get_value : Row → String → Option String
get_value [] column = none
get_value ((c, v) ∷ r) column = if c == column then some v else get_value r column

-- the rows' values of column `role`, as a set
unfoldable pub collect_roles : List Row → List String → List String
unfolding get_value
collect_roles [] roles = roles
collect_roles (row ∷ rows) roles = collect_roles rows (elim (get_value row "role") [
  | none ↦ roles
  | some role ↦ if contains roles role then roles else role ∷ roles
])

module _ (o : Outside) where
  unfoldable pub execute_statement : String → Go Event (Option String)
  unfolding exec
  execute_statement stmt = exec o stmt [] false

  unfoldable pub ensure_metadata_table : String → Go Event (Option String)
  ensure_metadata_table db_name = execute_statement (
      "\n\t\tCREATE TABLE IF NOT EXISTS " <> db_name
      <> ".metadata (\n\t\t\tid text PRIMARY KEY,\n\t\t\tvalue text\n\t\t)")

  unfoldable pub upsert_metadata_setting : String → String → String → Go Event (Option String)
  upsert_metadata_setting db_name key value =
      exec o ("INSERT INTO " <> db_name <> ".metadata (id, value) VALUES (?, ?)") (key ∷ value ∷ [])
        true

  unfoldable pub drop_resource : String → String → Go Event (Option String)
  drop_resource kind name = execute_statement (drop_statement kind name)

  unfoldable pub create_keyspace : String → String → Go Event (Option String)
  create_keyspace db_name settings = execute_statement (create_keyspace_statement db_name settings)

  unfoldable pub create_table : String → String → Go Event (Option String)
  create_table db_name table_name = execute_statement (
      "CREATE TABLE IF NOT EXISTS " <> db_name <> "." <> table_name
      <> "(id text PRIMARY KEY, value text)")

  unfoldable pub create_role : String → String → Go Event (Option String)
  create_role role password = execute_statement (create_role_statement role password)

  -- one statement for each permission, up to the first error
  unfoldable pub grant_permissions : String → String → List String → Go Event (Option String)
  grant_permissions db_name role [] = pure none
  grant_permissions db_name role (permission ∷ permissions) = do
    err ← exec o (grant_statement permission db_name role) [] false
    case_option err (grant_permissions db_name role permissions) (λ e. pure (some e))

  unfoldable pub get_roles : String → Go Event (Result (List String))
  get_roles stmt = do
    err ← ask (λ h. o.row_data h stmt) (query stmt [])
    found ← gets (λ h. o.rows h stmt)
    case_option err (pure (ok (collect_roles found [])))
        λ e. pure (fail ("Error during getting row data for statement " <> stmt <> ", err: " <> e))

  unfoldable pub get_roles_for_keyspace : String → Go Event (Result (List String))
  get_roles_for_keyspace keyspace = get_roles ("LIST ALL PERMISSIONS on keyspace " <> keyspace)

  unfoldable pub get_all_roles : Go Event (Result (List String))
  get_all_roles = get_roles "LIST ROLES"
