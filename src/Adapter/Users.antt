-- ===== src/Adapter/Users.antt =====
-- impl/db_admin.go: `CreateUser` and `CreateRoles`.
pub mod Guards
pub mod Changes
pub mod Authorized
pub mod Answers
use qubership_cassandra_oper.Base.{
  String, Bool, true, false, not, Option, none, some, List, [], ◌∷◌, ◌++◌, ◌==◌, ◌<>◌,
  if◌then◌else◌,
}
use qubership_cassandra_oper.Base.Go.{
  Go, Outcome, done, panic, Result, ok, fail, pure, raise, lift, try, ◌>>=◌, ◌>>◌, panic_on,
  case_result, case_outcome,
}
use qubership_cassandra_oper.Base.Strings.{contains}
use qubership_cassandra_oper.Adapter.Outside.{Outside, Event, Fields, get, as_text, not_string}
use qubership_cassandra_oper.Adapter.Session.{exec, new_auto_close_session}
use qubership_cassandra_oper.Adapter.Service.{
  create_role, grant_permissions, get_all_roles, get_roles_for_keyspace,
}
use qubership_cassandra_oper.Adapter.Admin.{
  DbAdministration, ConnectionProperties, DbResource, new_resource, UserCreateRequest, CreatedUser,
  user_resource_kind, get_supported_roles, role_to_permissions, get_keyspace_connection_properties,
  generate_uuid, generate_user_name,
}
use qubership_cassandra_oper.Adapter.Names.{name_matches, forbidden_in}

abbrev pub alter_role_statement : String → String → String
alter_role_statement user_name password =
    "ALTER ROLE '" <> user_name <> "' WITH PASSWORD = '" <> password <> "' AND LOGIN = true"

abbrev pub foreign_role_message : String → String → String
foreign_role_message user_name db_name =
    "Not found existing " <> user_name <> " role permissions for " <> db_name <> " keyspace"

-- `if err != nil { panic(err) }` on a pair of a value and an error
unfoldable pub value_or_panic : {A : Type 0} → Result A → Go Event A
value_or_panic r = case_result r raise pure

pub record AdditionalRole : Type 0 where
  pub id : String
  pub db_name : String
  pub connection_properties : List Fields

pub record Success : Type 0 where
  pub id : String
  pub connection_properties : List ConnectionProperties
  pub resources : List DbResource
  pub db_name : String

pub record Failure : Type 0 where
  pub id : String
  pub message : String

-- the named results of `CreateRoles`
pub record Roles : Type 0 where
  pub success : List Success
  pub failure : Option Failure

-- after a round that panicked the deferred function keeps what there is, and sets a failure
-- where none is set
abbrev pub set_if_nil : Option Failure → Failure → Failure
set_if_nil (some f) g = f
set_if_nil none g = g

abbrev pub recovered : Roles → String → String → Roles
recovered s id e = record s {
  failure = some (set_if_nil s.failure (record { id = id; message = e }));
}

abbrev pub add_success : Roles → Success × Option Failure → Roles
add_success s (entry, none) = record s { success = s.success ++ entry ∷ [] }
add_success s (entry, some f) = record { success = s.success ++ entry ∷ []; failure = some f }

-- the roles in the given connection properties; a missing or other value panics
unfoldable pub existing_roles : List Fields → Outcome (List String)
unfolding get as_text
existing_roles [] = done []
existing_roles (p ∷ ps) = elim (as_text (get p "role")) [
  | none ↦ panic (not_string (get p "role"))
  | some role ↦ elim (existing_roles ps) [ done roles ↦ done (role ∷ roles) | panic e ↦ panic e ]
]

module _ (o : Outside) (c : DbAdministration) where
  -- An existing role keeps its permissions and gets the password. Where the request names a
  -- keyspace, the role must have permissions on it.
  unfoldable pub update_role : String → UserCreateRequest → Go Event (Unit {0})
  update_role user_name r = do
    allowed ← if r.db_name == "" then pure true else (do
      listed ← get_roles_for_keyspace o r.db_name
      roles ← value_or_panic listed
      pure (contains roles user_name))
    let msg = foreign_role_message user_name r.db_name
    if allowed then pure tt else raise (o.panic_value msg msg)
    exec o (alter_role_statement user_name r.password) [] true
    pure tt

  unfoldable pub create_new_role : String → UserCreateRequest → Go Event (Unit {0})
  create_new_role user_name r = do
    created ← create_role o user_name r.password
    panic_on created
    granted ← grant_permissions o r.db_name user_name (role_to_permissions c r.role)
    panic_on granted

  unfoldable pub create_user_body : String → UserCreateRequest → Go Event CreatedUser
  create_user_body user_name r = do
    listed ← get_all_roles o
    roles ← value_or_panic listed
    if contains roles user_name then update_role user_name r else create_new_role user_name r
    pure (record {
      connection_properties =
          get_keyspace_connection_properties o c r.db_name user_name r.password r.role;
      resources = new_resource user_resource_kind user_name ∷ [];
      name = r.db_name;
    })

  -- An unsupported role is logged in version v2 and changes nothing.
  unfoldable pub create_user : String → UserCreateRequest → Go Event (Result CreatedUser)
  create_user user_name r = do
    let role = if r.role == "" then "admin" else r.role
    name ← if user_name == "" then generate_user_name o else pure user_name
    password ← if r.password == "" then generate_uuid o else pure r.password
    let r' = record r { role = role; password = password }
    if not (name_matches name) then pure (fail (forbidden_in "userName")) else do
      user ← new_auto_close_session o c.session_service (create_user_body name r')
      pure (ok user)

  -- The inner loop of `CreateRoles`: the new connection properties and resources, and the first
  -- error, at which it breaks.
  unfoldable pub create_missing :
      String
      → List String
      → List String
      → List ConnectionProperties
      → List DbResource
      → Go Event (List ConnectionProperties × List DbResource × Option String)
  create_missing db_name existing [] props resources = pure (props, resources, none)
  create_missing db_name existing (role ∷ roles) props resources =
      if contains existing role then create_missing db_name existing roles props resources else (do
        created ← create_user "" (record { db_name = db_name; password = ""; role = role })
        case_result created (λ e. pure (props, resources, some e))
            λ user.
              create_missing db_name existing roles (props ++ user.connection_properties ∷ [])
                (resources ++ user.resources))

  -- one round of the outer loop: the entry of `success`, and the failure that it sets
  unfoldable pub create_additional : AdditionalRole → Go Event (Success × Option Failure)
  create_additional a = do
    existing ← lift (existing_roles a.connection_properties)
    (props, resources, err) ← create_missing a.db_name existing (get_supported_roles c) [] []
    pure (
      record {
        id = a.id;
        connection_properties = props;
        resources = resources;
        db_name = a.db_name;
      },
      elim err [ none ↦ none | some e ↦ some (record { id = a.id; message = e }) ],
    )

  unfoldable pub create_roles_from : Roles → List AdditionalRole → Go Event Roles
  create_roles_from s [] = pure s
  create_roles_from s (a ∷ rest) = do
    round ← try (create_additional a)
    case_outcome round (λ e. pure (recovered s a.id e))
        λ entry. create_roles_from (add_success s entry) rest

  unfoldable pub create_roles : List AdditionalRole → Go Event Roles
  create_roles roles = create_roles_from (record { success = []; failure = none }) roles
