-- ===== src/Adapter/Examples.antt =====
-- The theorems on the adapter at concrete inputs.
use qubership_cassandra_oper.Base.{
  ◌*◌, String, true, false, Option, none, some, List, [], ◌∷◌, ◌++◌, ◌≡◌, ◌⊎◌, ◌↔◌, refl, ◌<>◌,
  ◌==◌, map,
}
use qubership_cassandra_oper.Base.Strings.{contains}
use qubership_cassandra_oper.Base.Go.{Outcome, done, panic, Result, ok, ◌>>◌}
use qubership_cassandra_oper.Adapter.Outside.{
  text, object, Fields, nil, field, get, as_text, Event, closed, query, connected, Row, Outside,
}
use qubership_cassandra_oper.Base.Strings.{trim_space, trim_left, trim_right, is_space}
use qubership_cassandra_oper.Adapter.Session.{
  Configuration, new_session, new_session_to_keyspace, new_auto_close_session,
  new_auto_close_session_to_keyspace, create_session, exec,
}
use qubership_cassandra_oper.Adapter.Session.Live.{live}
use qubership_cassandra_oper.Adapter.Session.Retry.{refusal, new_session_tries}
use qubership_cassandra_oper.Adapter.Service.{
  create_keyspace, create_table, create_role, execute_statement, create_keyspace_statement,
  create_role_statement, grant_permissions, grant_statement, get_all_roles, get_roles,
  collect_roles, get_roles_for_keyspace, ensure_metadata_table,
}
use qubership_cassandra_oper.Adapter.Admin.{
  feature, generate_uuid, DbAdministration, DbResource, DbCreateRequest, UserCreateRequest,
  get_supported_roles, new_resource, role_to_permissions, get_keyspace_connection_properties,
  user_resource_kind,
}
use qubership_cassandra_oper.Adapter.Leaks.{handlers_close_sessions}
use qubership_cassandra_oper.Adapter.Names.{
  in_name_class, name_matches, checked_name, get_logical_db_name,
}
use qubership_cassandra_oper.Adapter.Names.Class.{
  EveryChar, IsWordChar, IsBetweenCases, name_matches-EveryChar, prefixed_name_iff,
}
use qubership_cassandra_oper.Adapter.CreateDatabase.{
  LogicalDatabaseDescribed, create_database, create_database_body, assert_text, add_role,
  create_role_users, create_users, marshal_metadata, role_credentials, write_metadata,
  write_replication,
}
use qubership_cassandra_oper.Adapter.CreateDatabase.Rollback.{
  concluded, rolled_back, create_database_outcomes, refused_keyspace_is_dropped,
}
use qubership_cassandra_oper.Adapter.CreateDatabase.Reply.{shown_role, created_database_reports}
use qubership_cassandra_oper.Adapter.Users.{
  AdditionalRole, create_user, create_roles, Roles, Failure, foreign_role_message,
}
use qubership_cassandra_oper.Adapter.Users.Guards.{granted, grant_permissions-granted}
use qubership_cassandra_oper.Adapter.Users.Authorized.{CarriedOut, create_user-Authorized}
use qubership_cassandra_oper.Adapter.Users.{
  create_user_body, update_role, value_or_panic, create_new_role,
}
use qubership_cassandra_oper.Adapter.Admin.{CreatedUser}
use qubership_cassandra_oper.Adapter.Session.{
  new_auto_close_session, new_auto_close_session_to_keyspace, new_session,
}
use qubership_cassandra_oper.Adapter.Service.{create_role, execute_statement, grant_permissions}
use qubership_cassandra_oper.Adapter.Admin.{db_resource_kind}
use qubership_cassandra_oper.Adapter.CreateDatabase.Reply.{user_of}
use qubership_cassandra_oper.Adapter.Users.Answers.{ids, success_ids, create_roles-answers}
use qubership_cassandra_oper.Adapter.Resources.{
  drop_resources, validate_db_identifier_param, update_settings_handler, processed,
}
use qubership_cassandra_oper.Adapter.Resources.Replies.{
  drop_report, drop_resources-report, failed_settings_update_is_processed,
}

-- the answer to each statement, and the rows of each query
abbrev world_with : (String → Option String) → (String → List Row) → Outside
world_with answer found = record {
  create_session = λ h k con timeout. none;
  exec = λ h stmt values. answer stmt;
  row_data = λ h stmt. none;
  rows = λ h stmt. found stmt;
  uuid = λ h. "u1";
  marshal = λ m. ok "{}";
  unmarshal = λ s. some (field "value" (text s) nil);
  prepare_database_name = λ namespace service limit. ok (namespace <> "-" <> service);
  tls_enabled = false;
  panic_value = λ e msg. msg <> ": " <> e;
}

abbrev world : Outside
world = world_with (λ stmt. none) (λ stmt. [])

-- every statement is refused
abbrev refusing : Outside
refusing = world_with (λ stmt. some "refused") (λ stmt. [])

-- one role, and one row of metadata
abbrev peopled : Outside
peopled =
    world_with (λ stmt. none)
      (λ stmt. elim (stmt == "LIST ROLES") [
        | true ↦ (("role", "ann") ∷ []) ∷ []
        | false ↦ elim (stmt == "SELECT value FROM shop.metadata") [
          | true ↦ (("value", "{'class': 'SimpleStrategy'}") ∷ []) ∷ (("value", "{}") ∷ []) ∷ []
          | false ↦ []
        ]
      ])

abbrev conf : Configuration
conf = record {
  hostname = "host";
  port = 9042;
  user = "admin";
  pass = "secret";
  connect_timeout = 10;
  timeout = 5;
  topology = "dc1";
}

abbrev admin : DbAdministration
admin = record {
  supported_roles = "admin" ∷ "rw" ∷ [];
  supported_features = ("multiusers", true) ∷ [];
  api_version = "v2";
  session_service = record {
    configuration = conf;
    default_keyspace = "system";
    default_consistency = 4;
  };
  streaming_role_name = "streaming";
  streaming_role_permissions = "SELECT" ∷ [];
}

abbrev request : DbCreateRequest
request = record {
  metadata = nil;
  name_prefix = some "a";
  password = "p";
  db_name = "b";
  settings = field "replication" (text "{}") nil;
  username = "u";
}

abbrev classifier : Fields
classifier = field "namespace" (text "ns") (field "microserviceName" (text "svc") nil)

abbrev classified : DbCreateRequest
classified = record request {
  metadata = field "classifier" (object classifier) nil;
  name_prefix = none;
}

-- the events of an open session
abbrev opened : List Event
opened = connected "system" 4 5 ∷ []

handlers_close_sessions_example : live (create_database refusing admin request []).1 ≡ 0
handlers_close_sessions_example = (handlers_close_sessions refusing admin []).0 request

name_of_request : get_logical_db_name world request ≡ done (ok "ab")
unfolding get_logical_db_name checked_name name_matches in_name_class
name_of_request = refl

opens : new_session_to_keyspace world admin.session_service "" none [] ≡ (done tt, opened)
unfolding new_session_to_keyspace new_session ◌>>◌
opens = refl

refusing_opens :
    new_session_to_keyspace refusing admin.session_service "" none [] ≡ (done tt, opened)
unfolding new_session_to_keyspace new_session ◌>>◌
refusing_opens = refl

create_database_outcomes_example :
    create_database refusing admin request []
    ≡ concluded refusing admin request "ab"
        (create_database_body refusing admin request "ab" opened)
unfolding get_logical_db_name checked_name name_matches in_name_class
create_database_outcomes_example =
    create_database_outcomes refusing admin request "ab" [] opened refl refusing_opens

refused_keyspace_is_dropped_example :
    (create_database refusing admin request []).1
    ≡ closed
      ∷ rolled_back refusing admin request "ab"
          (query (create_keyspace_statement "ab" "{}") [] ∷ opened)
unfolding get_logical_db_name checked_name name_matches in_name_class get as_text
refused_keyspace_is_dropped_example =
    refused_keyspace_is_dropped refusing admin request "ab" "{}" "refused" [] opened refl
      refusing_opens refl refl

-- the reply and the events of a creation
abbrev made : Outcome (Result (String × LogicalDatabaseDescribed)) × List Event
made = create_database world admin request []

abbrev described_in :
    Outcome (Result (String × LogicalDatabaseDescribed)) → LogicalDatabaseDescribed
described_in (done (ok (name, d))) = d
described_in _ = record { connection_properties = []; resources = [] }

returns : create_database world admin request [] ≡ (done (ok ("ab", described_in made.0)), made.1)
unfolding create_database get_logical_db_name name_matches in_name_class checked_name
    new_auto_close_session new_auto_close_session_to_keyspace ◌>>◌ new_session_to_keyspace
    new_session create_database_body assert_text get as_text create_keyspace execute_statement
    feature generate_uuid get_supported_roles role_to_permissions get_keyspace_connection_properties
    add_role create_role_users create_users marshal_metadata role_credentials write_metadata
    write_replication create_role create_table grant_permissions create_session exec trim_space
    trim_left trim_right is_space
returns = refl

created_database_reports_example :
    (map (λ p. p.role) (described_in made.0).connection_properties
      ≡ map (shown_role admin) (get_supported_roles admin))
    × ((described_in made.0).resources
        ≡ new_resource db_resource_kind "ab"
          ∷ map user_of (described_in made.0).connection_properties)
created_database_reports_example =
    created_database_reports world admin request refl "ab" [] opened made.1 (described_in made.0)
      name_of_request opens returns

name_matches-EveryChar_example :
    (name_matches "a\\b" ≡ true) ↔ EveryChar (λ c. IsWordChar c ⊎ IsBetweenCases c) "a\\b"
name_matches-EveryChar_example = name_matches-EveryChar "a\\b"

prefixed_name_iff_example : (get_logical_db_name world request ≡ done (ok "ab")) ↔ (
    (name_matches "a" ≡ true)
    × (name_matches "b" ≡ true)
    × (name_matches "u" ≡ true)
    × ("ab" ≡ "a" <> "b"))
prefixed_name_iff_example = prefixed_name_iff world request "a" "ab" refl

new_session_tries_example :
    (new_session world 3 0 "system" 4 5 none [] ≡ (done none, connected "system" 4 5 ∷ []))
    ⊎ (new_session world 3 0 "system" 4 5 none []
        ≡ (done none, connected "system" 4 (5 * 2) ∷ refusal world "system" 4 5 2 []))
    ⊎ (new_session world 3 0 "system" 4 5 none [] ≡ (
      done none,
      connected "system" 4 (5 * 6)
          ∷ refusal world "system" 4 (5 * 2) 4 (refusal world "system" 4 5 2 []),
    ))
    ⊎ ((e : String) × (world.create_session
            (refusal world "system" 4 (5 * 2) 4 (refusal world "system" 4 5 2 []))
            "system"
            4
            (5 * 6)
          ≡ some e)
        × (new_session world 3 0 "system" 4 5 none [] ≡ (
          done (some e),
          refusal world "system" 4
              (5 * 6)
              6
              (refusal world "system" 4 (5 * 2) 4 (refusal world "system" 4 5 2 [])),
        )))
new_session_tries_example = new_session_tries world "system" 4 5 []

grant_permissions-granted_example :
    (grant_permissions refusing "db" "ann" ("ALTER" ∷ "DROP" ∷ []) []
      ≡ (done none, granted "db" "ann" ("ALTER" ∷ "DROP" ∷ []) []))
    ⊎ ((before after : List String) × (p e : String) × ("ALTER" ∷ "DROP" ∷ [] ≡ before ++ p ∷ after)
        × (refusing.exec (granted "db" "ann" before []) (grant_statement p "db" "ann") [] ≡ some e)
        × (grant_permissions refusing "db" "ann" ("ALTER" ∷ "DROP" ∷ []) []
            ≡ (done (some e), granted "db" "ann" (before ++ p ∷ []) [])))
grant_permissions-granted_example =
    grant_permissions-granted refusing "db" "ann" ("ALTER" ∷ "DROP" ∷ []) []

abbrev user_request : UserCreateRequest
user_request = record { db_name = "shop"; password = "p"; role = "auditor" }

-- the events of the listing of roles, and of the roles with permissions on the keyspace
abbrev listed : List Event
listed = query "LIST ROLES" [] ∷ opened

abbrev listed_for_keyspace : List Event
listed_for_keyspace = query "LIST ALL PERMISSIONS on keyspace shop" [] ∷ listed

peopled_opens : new_session_to_keyspace peopled admin.session_service "" none [] ≡ (done tt, opened)
unfolding new_session_to_keyspace new_session ◌>>◌
peopled_opens = refl

-- an existing role that is not listed for the keyspace is left alone
foreign_role_test : create_user peopled admin "ann" user_request [] ≡ (
  panic
      (peopled.panic_value (foreign_role_message "ann" "shop") (foreign_role_message "ann" "shop")),
  closed ∷ listed_for_keyspace,
)
unfolding create_user create_user_body update_role value_or_panic new_auto_close_session
    new_auto_close_session_to_keyspace name_matches in_name_class get_all_roles
    get_roles_for_keyspace get_roles collect_roles contains new_session_to_keyspace new_session ◌>>◌
foreign_role_test = refl

abbrev bob : CreatedUser
bob = record {
  connection_properties =
      get_keyspace_connection_properties peopled admin "shop" "bob" "p" "auditor";
  resources = new_resource user_resource_kind "bob" ∷ [];
  name = "shop";
}

abbrev bob_created : List Event
bob_created = closed ∷ query (create_role_statement "bob" "p") [] ∷ listed

-- a role without known permissions
bob_answered : create_user peopled admin "bob" user_request [] ≡ (done (ok bob), bob_created)
unfolding create_user create_user_body create_new_role create_role execute_statement exec
    grant_permissions value_or_panic new_auto_close_session new_auto_close_session_to_keyspace
    name_matches in_name_class get_all_roles get_roles collect_roles contains role_to_permissions
    new_session_to_keyspace new_session ◌>>◌
bob_answered = refl

create_user-Authorized_example : CarriedOut peopled admin "bob" user_request bob [] bob_created
create_user-Authorized_example =
    create_user-Authorized peopled admin "bob" user_request bob [] bob_created bob_answered

abbrev additional : List AdditionalRole
additional = record { id = "1"; db_name = "shop"; connection_properties = nil ∷ [] } ∷ []

create_roles-answers_example :
    (t : Roles) × (h' : List Event) × (rest : List String) × (create_roles world admin additional []
      ≡ (done t, h'))
    × (ids additional ≡ success_ids t.success ++ rest)
    × ((rest ≡ []) ⊎ ((f : Failure) × (t.failure ≡ some f)))
create_roles-answers_example = create_roles-answers world admin additional []

abbrev resources : List DbResource
resources = new_resource "database" "shop" ∷ new_resource "user" "ann" ∷ []

drop_resources-report_example : drop_resources refusing admin resources [] ≡ (
  done (drop_report refusing resources opened).0,
  closed ∷ (drop_report refusing resources opened).1,
)
drop_resources-report_example =
    drop_resources-report refusing admin [] opened refusing_opens resources

failed_settings_update_is_processed_example :
    update_settings_handler refusing admin "shop" (ok (field "replication" (text "{}") nil)) []
    ≡ (done processed, closed ∷ (ensure_metadata_table refusing "shop" opened).1)
unfolding validate_db_identifier_param name_matches in_name_class get as_text ensure_metadata_table
    execute_statement exec ◌>>◌
failed_settings_update_is_processed_example =
    failed_settings_update_is_processed refusing admin [] opened refusing_opens "shop" "{}"
      "refused" (field "replication" (text "{}") nil) refl refl refl
