-- ===== src/Operator/Smoke.antt =====
-- pkg/impl/utils/cassandra_metric.go, pkg/impl/fiber/service.go and handlers.go: the smoke tests.
pub mod Flag
pub mod Recovered
use qubership_cassandra_oper.Base.{
  ℕ, String, Bool, true, false, Option, none, some, List, [], ◌∷◌, ◌<>◌, ltb, if◌then◌else◌,
}
use qubership_cassandra_oper.Base.Decimal.{show_ℕ}
use qubership_cassandra_oper.Base.Go.{
  Go, Outcome, done, panic, pure, raise, lift, ask, ◌>>=◌, ◌>>◌, case_option,
}
use qubership_cassandra_oper.Operator.Streams.{find_first}
use qubership_cassandra_oper.Operator.DataCenters.{DataCenter}

pub data SmokeEvent : Type 0 where
  got_session : SmokeEvent
  ran_statement : String → SmokeEvent
  -- a value of the metric with its operation
  set_metric : String → ℕ → SmokeEvent

-- the driver: a session or its error, an answer to a statement, and what a statement does on the
-- session that came with an error
pub record SmokeDriver : Type 0 where
  pub session : List SmokeEvent → Option String
  pub exec : List SmokeEvent → String → Option String
  pub exec_failed : List SmokeEvent → String → Outcome (Option String)

-- `CassandraMetricCollectorImpl`
pub record MetricCollector : Type 0 where
  pub test_keyspace : String
  pub replicas : ℕ
  pub external_cassandra : Bool
  pub schema_created : Bool

module _ (k : SmokeDriver) where
  unfoldable pub run_statement : String → Go SmokeEvent (Option String)
  run_statement stmt = ask (λ h. k.exec h stmt) (ran_statement stmt)

  abbrev pub create_keyspace : MetricCollector → String
  create_keyspace m =
      "CREATE KEYSPACE if not exists "
      <> m.test_keyspace
      <> "  WITH REPLICATION = {'class' : 'NetworkTopologyStrategy', 'replication_factor' : "
      <> show_ℕ m.replicas
      <> " }"

  abbrev pub create_table : MetricCollector → String
  create_table m =
      "CREATE TABLE if not exists " <> m.test_keyspace
      <> ".test_table (key text, insert_time timestamp, PRIMARY KEY((key)))"

  unfoldable pub prepare_schema : MetricCollector → Go SmokeEvent (Option String)
  unfolding run_statement
  prepare_schema m = do
    err ← ask k.session got_session
    case_option err
        (if m.external_cassandra
          then run_statement (create_table m)
          else (run_statement (create_keyspace m) >>= λ failed.
              case_option failed (run_statement (create_table m)) (λ e. pure (some e))))
        (λ e. pure (some e))

  -- a statement on the session, also on one that came with an error
  unfoldable pub statement_after : Option String → String → Go SmokeEvent (Option String)
  unfolding run_statement
  statement_after err stmt =
      case_option err (run_statement stmt)
        λ e. do answer ← ask (λ h. k.exec_failed h stmt) (ran_statement stmt); lift answer

  -- the test itself, once there is a schema
  unfoldable pub test_statement : MetricCollector → String → Go SmokeEvent (ℕ × MetricCollector)
  unfolding statement_after
  test_statement m stmt = do
    err ← ask k.session got_session
    failed ← statement_after err stmt
    case_option failed (pure (1, record m { schema_created = true }))
        (λ e. pure (0, record m { schema_created = false }))

  unfoldable pub perform_test : MetricCollector → String → Go SmokeEvent (ℕ × MetricCollector)
  unfolding prepare_schema test_statement
  perform_test m stmt =
      if m.schema_created
      then test_statement m stmt
      else (prepare_schema m >>= λ err. case_option err (test_statement m stmt) (λ e. pure (0, m)))

  unfoldable pub perform_insert_test : MetricCollector → Go SmokeEvent (ℕ × MetricCollector)
  perform_insert_test m = perform_test m (
      "INSERT INTO " <> m.test_keyspace
      <> ".test_table (insert_time, key) VALUES (toTimestamp(now()), 'test')")

  unfoldable pub perform_select_test : MetricCollector → Go SmokeEvent (ℕ × MetricCollector)
  perform_select_test m =
      perform_test m
        ("SELECT insert_time, key FROM " <> m.test_keyspace <> ".test_table WHERE key='test'")

  unfoldable pub perform_delete_test : MetricCollector → Go SmokeEvent (ℕ × MetricCollector)
  perform_delete_test m =
      perform_test m ("DELETE FROM " <> m.test_keyspace <> ".test_table WHERE key='test'")

  abbrev report : String → ℕ → Go SmokeEvent (Unit {0})
  report operation result = ask (λ h. tt) (set_metric operation result)

  -- a round of `calculateMetrics`, which sleeps and starts again
  unfoldable pub metrics_round : MetricCollector → Go SmokeEvent MetricCollector
  metrics_round m = do
    inserted ← perform_insert_test m
    report "insert" inserted.0
    selected ← perform_select_test inserted.1
    report "select" selected.0
    deleted ← perform_delete_test selected.1
    report "delete" deleted.0
    pure deleted.1

-- `utils.Min`
abbrev pub min : ℕ → ℕ → ℕ
min a b = if ltb a b then a else b

-- `NewCassandraFiberService`: the collector of the first data center that is deployed. Whether
-- Cassandra is external is never set.
unfoldable pub new_collector : Bool → String → List DataCenter → Outcome MetricCollector
unfolding find_first
new_collector install keyspace dcs =
    if install
    then elim (find_first (λ (dc : DataCenter). dc.deploy) dcs) [
      | none ↦ panic "interface conversion: interface {} is nil, not *v1alpha1.DataCenter"
      | some dc ↦ done (record {
        test_keyspace = keyspace <> "_" <> dc.name;
        replicas = min dc.replicas 3;
        external_cassandra = false;
        schema_created = false;
      })
    ]
    else done (record {
      test_keyspace = keyspace;
      replicas = 1;
      external_cassandra = false;
      schema_created = false;
    })
