-- ===== src/Services/SshKeys.antt =====
-- pkg/backup/ssh_key_step.go: the keys by which the backup daemon reaches the pods of Cassandra.
pub mod Stored
pub mod Attempts
pub mod Spread
use qubership_cassandra_oper.Base.{
  ℕ, zero, suc, ◌+◌, String, Bool, true, false, Option, none, some, List, [], ◌∷◌, ◌++◌, ◌<>◌, ◌==◌,
  eqb, if◌then◌else◌,
}
use qubership_cassandra_oper.Base.Decimal.{show_ℕ}
use qubership_cassandra_oper.Base.Maps.{StringMap, lookup}
use qubership_cassandra_oper.Base.Strings.{join}
use qubership_cassandra_oper.Base.Go.{Go, Result, pure, raise, ask, ◌>>=◌, ◌>>◌, case_option}
use qubership_cassandra_oper.Services.Resource.{SchemaDataCenter, ServicesSpec}
use qubership_cassandra_oper.Services.Platform.{
  Pod, Connection, Action, read_secret, connected, selected, executed, generated_keys,
  stored_secret, listed_pods, ran, Platform, deref, demand, obtain, execute,
}

-- the replication of each data center, deployed or not
unfoldable pub replication_parts : List SchemaDataCenter → List String
replication_parts [] = []
replication_parts (dc ∷ dcs) =
    ("'" <> dc.name <> "': '" <> show_ℕ dc.replicas <> "'") ∷ replication_parts dcs

abbrev pub with_replication : String → String → String
with_replication statement replication =
    statement <> " WITH REPLICATION = {'class' : 'NetworkTopologyStrategy', " <> replication
    <> " }; "

abbrev pub with_alter : String → String
with_alter replication =
    "alter KEYSPACE ssh  WITH REPLICATION = {'class' : 'NetworkTopologyStrategy', " <> replication
    <> " }; "

-- `string(secret.Data[key])`, the empty text where the key is missing
abbrev pub text_at : String → StringMap → String
text_at key m = elim (lookup key m) [ none ↦ "" | some v ↦ v ]

abbrev pub insert_key : String
insert_key = "INSERT INTO ssh.backup (id, key)  VALUES (?, ?)"

-- the commands, none of which has its error ignored
abbrev pub key_commands : String → List String
key_commands public_key =
    "mkdir -p /var/lib/cassandra/data/.ssh/"
    ∷ "rm -rf /var/lib/cassandra/data/.ssh/authorized_keys"
    ∷ ("echo '" <> public_key <> "' > /var/lib/cassandra/data/.ssh/authorized_keys")
    ∷ "chmod -R 700 /var/lib/cassandra/data/.ssh"
    ∷ "chmod 600 /var/lib/cassandra/data/.ssh/authorized_keys"
    ∷ []

module _ (k : Platform) where
  -- new keys, which are stored
  unfoldable pub new_keys : String → Go Action (String × String)
  new_keys replication = do
    keys ← obtain k (λ h. k.generate_key_pair h) generated_keys "SHH keys not generated"
    execute k (with_replication "CREATE KEYSPACE if not exists ssh" replication) []
    execute k "CREATE TABLE if not exists ssh.backup ( id text PRIMARY KEY, key text)" []
    execute k insert_key ("public" ∷ keys.0 ∷ [])
    execute k insert_key ("private" ∷ keys.1 ∷ [])
    pure keys

  unfoldable pub found_keys : String → String → String → Go Action (String × String)
  found_keys replication public_key private_key = do
    execute k (with_alter replication) []
    pure (public_key, private_key)

  -- the keys of the database, if it has both
  unfoldable pub resolve_keys : String → Go Action (String × String)
  resolve_keys replication = do
    public_key ← ask (λ h. k.select h "public") (selected "public")
    private_key ← ask (λ h. k.select h "private") (selected "private")
    case_option public_key (new_keys replication)
        λ p. case_option private_key (new_keys replication) λ q. found_keys replication p q

  -- the commands up to the first that fails, with its error
  unfoldable pub run_commands : Pod → List String → Go Action (Option (String × String))
  run_commands pod [] = pure none
  run_commands pod (command ∷ commands) = do
    err ← ask (λ h. k.exec_remote h pod command) (ran pod command)
    case_option err (run_commands pod commands) (λ e. pure (some (e, command)))

  abbrev pub command_message : Pod → String → String
  command_message pod command =
      "Command '{" <> command <> " false}+' is failed on '" <> pod.name <> "' pod"

  -- `for doneTriesCount < tries`, with the rounds that are left
  unfoldable pub try_pod : ℕ → List String → Pod → ℕ → ℕ → Go Action (Unit {0})
  try_pod tries commands pod zero done_tries = pure tt
  try_pod tries commands pod (suc left) done_tries = do
    failed ← run_commands pod commands
    let again = try_pod tries commands pod left (suc done_tries)
    case_option failed (pure tt) λ f.
        if eqb (suc done_tries) tries
        then raise (k.panic_value f.0 (command_message pod f.1))
        else again

  unfoldable pub try_pods : ℕ → List String → List Pod → Go Action (Unit {0})
  try_pods tries commands [] = pure tt
  try_pods tries commands (pod ∷ pods) = do
    try_pod tries commands pod tries 0
    try_pods tries commands pods

  -- the session with the super user's secret
  unfoldable pub open_session : ServicesSpec → String → StringMap → Go Action (Unit {0})
  open_session spec namespace secret =
      let settings : Connection = record {
        host = k.optional_string spec.cassandra.host ("cassandra." <> namespace);
        user = text_at "username" secret;
        password = text_at "password" secret;
        root_cert_path = "/usr/ssl/" <> spec.tls.root_ca_file_name;
        tls_enabled = spec.tls.enabled;
        keyspace = "system";
      } in
      demand k (λ h. k.connect h settings) (connected settings) "failed to create cassandra session"

  -- `core.PanicError(fmt.Errorf(..))` where there is no data center
  unfoldable pub join_replication : List String → Go Action String
  unfolding join
  join_replication [] = raise (
      k.panic_value "failed to calculate replication parameters"
        "Failed to calculate replication parameters")
  join_replication (part ∷ parts) = pure (join "," (part ∷ parts))

  -- `Execute`, from the keys on: the secret, and the pods, which the list may not have at all
  unfoldable pub spread_keys : ℕ → String × String → Go Action (Option String)
  spread_keys tries keys = do
    let stored = ("publicKey", keys.0) ∷ ("privateKey", keys.1) ∷ []
    demand k (λ h. k.store_secret h "ssh-keys" stored) (stored_secret "ssh-keys" stored)
        "SSH ConfigMap creation failed"
    let cassandra_labels = ("service", "cassandra-cluster") ∷ []
    pods ← ask (λ h. k.list_pods h cassandra_labels) (listed_pods cassandra_labels)
    case_option pods (pure none) λ items. do try_pods tries (key_commands keys.0) items; pure none

  -- `Execute`
  unfoldable pub ssh_key_step : ServicesSpec → String → ℕ → Go Action (Option String)
  ssh_key_step spec namespace tries_count = do
    let tries = k.max_int tries_count 1
    let secret_name = spec.cassandra.secret_name
    secret ←
        obtain k (λ h. k.secret h secret_name) (read_secret secret_name)
          ("Failed to read secret " <> secret_name)
    dcs ← deref spec.cassandra.deployment_schema
    replication ← join_replication (replication_parts dcs)
    open_session spec namespace secret
    keys ← resolve_keys replication
    spread_keys tries keys
