-- ===== src/Adapter/Session.antt =====
-- impl/cassandra/cql.go, session_service.go: sessions, their retries, and queries.
pub mod Live
pub mod Retry
use qubership_cassandra_oper.Base.{
  ℕ, zero, suc, ◌+◌, ◌*◌, String, Bool, true, false, Option, none, some, List, [], ◌∷◌, ◌==◌, ◌<>◌,
  if◌then◌else◌,
}
use qubership_cassandra_oper.Base.Go.{
  Go, done, pure, raise, emit, ask, ◌>>=◌, ◌>>◌, deferring, panic_error, case_option,
}
use qubership_cassandra_oper.Adapter.Outside.{
  Outside, Event, connected, refused, slept, closed, query,
}

-- the fields of `CassandraConfigurationImpl`
pub record Configuration : Type 0 where
  pub hostname : String
  pub port : ℕ
  pub user : String
  pub pass : String
  pub connect_timeout : ℕ
  pub timeout : ℕ
  pub topology : String

pub record SessionService : Type 0 where
  pub configuration : Configuration
  pub default_keyspace : String
  pub default_consistency : ℕ

abbrev consistency_or : ℕ → Option ℕ → ℕ
consistency_or default none = default
consistency_or default (some c) = c

module _ (o : Outside) where
  -- one `CreateSession`, with its error
  unfoldable pub create_session : String → ℕ → ℕ → Go Event (Option String)
  create_session k con timeout h = elim (o.create_session h k con timeout) [
    | none ↦ (done none, connected k con timeout ∷ h)
    | some e ↦ (done (some e), refused k con timeout ∷ h)
  ]

  -- The loop of `Cluster.NewSession`, with the tries left, the tries made, the cluster's timeout
  -- and the last error. The timeout of a try is stored and multiplied again in the next.
  unfoldable pub new_session : ℕ → ℕ → String → ℕ → ℕ → Option String → Go Event (Option String)
  unfolding create_session
  new_session zero try k con timeout err = pure err
  new_session (suc left) try k con timeout err = do
    let timeout' = timeout * (try + 1)
    err' ← create_session k con timeout'
    case_option err' (pure none)
        λ e. do emit (slept (2 * (try + 1))); new_session left (suc try) k con timeout' (some e)

  unfoldable pub new_session_to_keyspace : SessionService → String → Option ℕ → Go Event (Unit {0})
  new_session_to_keyspace r keyspace consistency = do
    let con = consistency_or r.default_consistency consistency
    let k = if keyspace == "" then r.default_keyspace else keyspace
    err ← new_session 3 0 k con r.configuration.timeout none
    panic_error o.panic_value err "Could not create cassandra session"

  -- the session is closed by a deferred call, also when the function panics
  unfoldable pub new_auto_close_session_to_keyspace :
      {A : Type 0} → SessionService → Go Event A → String → Option ℕ → Go Event A
  new_auto_close_session_to_keyspace r session_func keyspace consistency = do
    new_session_to_keyspace r keyspace consistency
    deferring (emit closed) session_func

  unfoldable pub new_auto_close_session : {A : Type 0} → SessionService → Go Event A → Go Event A
  new_auto_close_session r session_func = new_auto_close_session_to_keyspace r session_func "" none

  -- `Query(stmt, values...).Exec(panicOnError)`
  unfoldable pub failed : Bool → String → String → Go Event (Option String)
  failed true stmt e = raise ("Error during query execution " <> stmt <> ": " <> e)
  failed false stmt e = pure (some e)

  unfoldable pub exec : String → List String → Bool → Go Event (Option String)
  unfolding failed
  exec stmt values panic_on_error = do
    err ← ask (λ h. o.exec h stmt values) (query stmt values)
    case_option err (pure none) (failed panic_on_error stmt)
