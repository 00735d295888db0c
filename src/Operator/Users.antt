-- ===== src/Operator/Users.antt =====
-- pkg/impl/utils/utils.go, user_steps.go, updateCreds.go: the users of the cluster.
pub mod Superuser
use qubership_cassandra_oper.Base.{
  String, Bool, true, false, not, Option, none, some, List, ◌==◌, ◌<>◌, ◌&&◌, if◌then◌else◌,
}
use qubership_cassandra_oper.Base.Go.{Go, pure, ask, ◌>>=◌, ◌>>◌, case_option, panic_error}
use qubership_cassandra_oper.Operator.Hosts.{cassandra}
use qubership_cassandra_oper.Operator.Cluster.{Event, connected, Cluster, exec_in_session, exec}

abbrev pub create_superuser_statement : String → String → String
create_superuser_statement username password =
    "CREATE ROLE IF NOT EXISTS '" <> username
    <> "' with SUPERUSER = true AND LOGIN = true and PASSWORD = '" <> password <> "'"

abbrev pub set_password_statement : String → String → String
set_password_statement username password =
    "ALTER ROLE '" <> username <> "' with PASSWORD = '" <> password <> "'"

abbrev pub drop_default_statement : String
drop_default_statement = "DROP ROLE IF EXISTS cassandra;"

module _ (k : Cluster) where
  -- in the session, as the default user
  unfoldable pub create_user_statement : String → String → Go Event (Option String)
  create_user_statement username password =
      if not (username == cassandra)
      then exec k (create_superuser_statement username password) false
      else exec k (set_password_statement username password) true

  unfoldable pub create_user : String → String → Go Event (Option String)
  create_user username password =
      exec_in_session k cassandra cassandra (create_user_statement username password)

  unfoldable pub update_user_pass : String → String → String → Go Event (Option String)
  update_user_pass username old_password new_password =
      exec_in_session k username old_password
        (exec k (set_password_statement username new_password) true)

  unfoldable pub check_login : String → String → Go Event Bool
  check_login username password = do
    err ← exec_in_session k username password (pure none)
    case_option err (pure true) (λ _. pure false)

  -- `CreateSuperUser`, with the user of the resource and the password of the context
  unfoldable pub superuser_condition : String → Option String → Go Event Bool
  unfolding check_login
  superuser_condition user none = pure true
  superuser_condition user (some pass) = do fine ← check_login user pass; pure (not fine)

  -- the step where its condition holds, as the executor runs it
  unfoldable pub superuser_step : String → Option String → String → Go Event (Option String)
  unfolding superuser_condition create_user
  superuser_step user context_password password = do
    needed ← superuser_condition user context_password
    if needed then create_user user password else pure none

  -- `DropCassandraDefaultUser`
  unfoldable pub drop_default_condition : Bool → String → Bool
  drop_default_condition clean_deploy user = clean_deploy && not (user == cassandra)

  unfoldable pub drop_default_user : String → String → Go Event (Option String)
  drop_default_user user password = do
    err ← ask (λ h. k.connect h user password) (connected user password)
    panic_error k.panic_value err "failed to create cassandra session"
    exec k drop_default_statement false
