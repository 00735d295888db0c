-- ===== src/Adapter/Resources.antt =====
-- impl/db_admin.go: `DropResources`, `GetMetadata`, `UpdateMetadata`, `GetDatabases` and the
-- handler of settings updates.
pub mod Replies
use qubership_cassandra_oper.Base.{
  ℕ, String, Bool, true, false, not, Option, none, some, List, [], ◌∷◌, ◌++◌, ◌==◌, ◌<>◌, ◌||◌,
  if◌then◌else◌,
}
use qubership_cassandra_oper.Base.Go.{
  Go, Outcome, done, panic, Result, ok, fail, pure, raise, ask, try, ◌>>=◌, ◌>>◌, panic_on,
  case_option, case_result, case_outcome,
}
use qubership_cassandra_oper.Adapter.Outside.{Outside, Event, query, Row, Fields, get, as_text}
use qubership_cassandra_oper.Adapter.Session.{exec, new_auto_close_session}
use qubership_cassandra_oper.Adapter.Service.{
  drop_resource, ensure_metadata_table, upsert_metadata_setting,
}
use qubership_cassandra_oper.Adapter.Admin.{
  DbAdministration, DbResource, deleted, delete_failed, metadata_key, user_resource_kind,
  db_resource_kind,
}
use qubership_cassandra_oper.Adapter.Names.{name_matches}

-- `apiResourcesToCassandraEntities`; the empty text for any other kind
unfoldable pub cassandra_entity : String → String
cassandra_entity kind =
    if kind == user_resource_kind
    then "role"
    else if kind == db_resource_kind
    then "keyspace"
    else ""

-- the columns of one text column, as `Scan` into one text reads them
unfoldable pub first_column : Row → String
first_column [] = ""
first_column ((c, v) ∷ r) = v

unfoldable pub scan_all : List Row → List String
unfolding first_column
scan_all [] = []
scan_all (row ∷ rows) = first_column row ∷ scan_all rows

pub record Response : Type 0 where
  pub status : ℕ
  pub body : String

abbrev pub processed : Response
processed = record { status = 200; body = "Update settings processed successfully" }

abbrev pub internal_error : String → Response
internal_error e = record { status = 500; body = e }

-- `SendInvalidParameterResponse`
abbrev pub invalid_parameter : String → String → String → Response
invalid_parameter name value pattern = record {
  status = 400;
  body =
      "Invalid '" <> name <> "' param provided: " <> value <> ". '" <> name
      <> "' param must comply to the pattern " <> pattern;
}

-- `ValidateDbIdentifierParam` with the pattern of database names
unfoldable pub validate_db_identifier_param : String → Bool
unfolding name_matches
validate_db_identifier_param value = if value == "" then true else name_matches value

module _ (o : Outside) where
  -- `catchDropFailing`: an error becomes the resource's status
  unfoldable pub catch_drop_failing : DbResource → Go Event DbResource
  catch_drop_failing src = do
    outcome ← try (do err ← drop_resource o (cassandra_entity src.kind) src.name; panic_on err)
    case_outcome outcome (λ e. pure (record src { status = delete_failed; error_message = e }))
        (λ _. pure (record src { status = deleted }))

  unfoldable pub drop_each : List DbResource → List DbResource → Go Event (List DbResource)
  drop_each statuses [] = pure statuses
  drop_each statuses (r ∷ rest) = do
    status ← catch_drop_failing r
    drop_each (statuses ++ status ∷ []) rest

  -- `query.Iter()` scanned to its end
  unfoldable pub select_rows : String → Go Event (List Row)
  select_rows stmt = ask (λ h. o.rows h stmt) (query stmt [])

  module _ (c : DbAdministration) where
    unfoldable pub drop_resources : List DbResource → Go Event (List DbResource)
    drop_resources resources = new_auto_close_session o c.session_service (drop_each [] resources)

    unfoldable pub get_databases : Go Event (List String)
    get_databases = new_auto_close_session o c.session_service (do
      rows ← select_rows "SELECT keyspace_name FROM system_schema.keyspaces"
      pure (scan_all rows))

    -- the first row decides
    unfoldable pub metadata_of : List Row → Option Fields
    unfolding first_column
    metadata_of [] = none
    metadata_of (row ∷ rows) = o.unmarshal (first_column row)

    unfoldable pub get_metadata : String → Go Event (Option Fields)
    get_metadata logical_database = new_auto_close_session o c.session_service (do
      rows ← select_rows ("SELECT value FROM " <> logical_database <> ".metadata")
      pure (metadata_of rows))

    unfoldable pub update_metadata : Fields → String → Go Event (Unit {0})
    update_metadata new_metadata service_name = new_auto_close_session o c.session_service (
        case_result (o.marshal new_metadata)
          (λ e. raise (o.panic_value e "Failed marshaling metadata for keyspace"))
          λ marshaled. do
            exec o ("update " <> service_name <> ".metadata set value = ? where id = ?")
                (marshaled ∷ metadata_key ∷ []) true
            pure tt)

    -- What the session's function does. It sends a response of its own on an error, and the
    -- handler overwrites that by the last one.
    unfoldable pub update_settings_body : String → String → Go Event (Option Response)
    update_settings_body db_name replication = do
      ensured ← ensure_metadata_table o db_name
      let reply_error = λ (e : String). pure (some (internal_error e))
      case_option ensured
          (do
            upserted ← upsert_metadata_setting o db_name "replication" replication
            case_option upserted (pure none) reply_error)
          reply_error

    -- `UpdateCassandraSettingsHandler`, with the body's `newSettings` or its parse error. The
    -- response is the last one that is sent.
    unfoldable pub update_settings_handler : String → Result Fields → Go Event Response
    update_settings_handler db_name request =
        if validate_db_identifier_param db_name
        then case_result request (λ e. pure (internal_error e))
            (λ new_settings.
              case_option (as_text (get new_settings "replication")) (pure processed) λ replication.
                do
                  new_auto_close_session o c.session_service
                      (update_settings_body db_name replication)
                  pure processed)
        else pure (invalid_parameter "dbName" db_name "^[_A-z0-9]*$")
