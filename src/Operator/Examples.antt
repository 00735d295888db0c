-- ===== src/Operator/Examples.antt =====
-- The theorems on the operator at concrete inputs.
use qubership_cassandra_oper.Base.{
  inl, ℕ, ◌≤◌, ◌<◌, String, Bool, true, false, none, some, List, [], ◌∷◌, ◌++◌, ◌≡◌, ◌⊎◌, ◌↔◌, refl,
  ◌<>◌, ◌==◌, map, arith, str_ne,
}
use qubership_cassandra_oper.Base.Lists.{length, take, All}
use qubership_cassandra_oper.Base.Go.{Outcome, done, panic, ok, ◌>>◌}
use qubership_cassandra_oper.Operator.Streams.{any_match}
use qubership_cassandra_oper.Operator.DataCenters.{
  DataCenter, StorageRequirements, get_active_replicas, deployed, filter_dc,
  get_active_replicas_len,
}
use qubership_cassandra_oper.Operator.DataCenters.Active.{
  Elem, Removed, IncreasingFrom, active_replicas_iff,
}
use qubership_cassandra_oper.Operator.Hosts.{cassandra}
use qubership_cassandra_oper.Operator.DataCenters.Numbering.{offset}
use qubership_cassandra_oper.Operator.Seeds.Pods.{numbered_from}
use qubership_cassandra_oper.Operator.Hosts.Names.{replica_names_distinct}
use qubership_cassandra_oper.Operator.Seeds.{dc_seed}
use qubership_cassandra_oper.Operator.Seeds.Pods.{
  pod_host, dc_seed-names_of, seed_of_another_replica,
}
use qubership_cassandra_oper.Operator.Validation.{validate, dcs_error}
use qubership_cassandra_oper.Operator.Validation.Accepted.{SoundCenter, validate-SoundCenter}
use qubership_cassandra_oper.Operator.Cluster.{
  Event, connected, Cluster, exec, must, delete_statefulset_and_pods, create_statefulset,
  wait_for_pods_ready,
}
use qubership_cassandra_oper.Operator.StatefulSets.{
  Spec, Context, statefulset_step, deploy_centers, deploy_replicas, build_statefulset, address_env,
  pvc_mounts_from, replace_statefulset,
}
use qubership_cassandra_oper.Operator.StatefulSets.Rollout.{
  RollsOut, all_names, names_of, statefulset_step-RollsOut,
}
use qubership_cassandra_oper.Operator.Topology.{total_replicas, is_all_dcs_deployed}
use qubership_cassandra_oper.Operator.Users.{create_superuser_statement, superuser_step}
use qubership_cassandra_oper.Operator.Users.Superuser.{created_events, superuser_step-login}
use qubership_cassandra_oper.Base.Decimal.{show_ℕ}
use qubership_cassandra_oper.Operator.Hosts.{calc_service_host_name}
use qubership_cassandra_oper.Operator.Cluster.{deleted}
use qubership_cassandra_oper.Operator.Hosts.{get_replication_factor}
use qubership_cassandra_oper.Operator.Scaling.{remove_nodes_step}
use qubership_cassandra_oper.Operator.Scaling.Inactive.{set_of}
use qubership_cassandra_oper.Operator.Scaling.Removed.{SparesActive, removed_node_is_inactive}
use qubership_cassandra_oper.Base.Go.Made.{Has}
use qubership_cassandra_oper.Operator.Services.{
  ServiceSpec, LabelKeys, service_templates, services_step, replace_services, replace_service,
}
use qubership_cassandra_oper.Operator.Services.Hosts.{
  Served, replaced_services, services_step-service_of,
}
use qubership_cassandra_oper.Operator.Topology.{get_session, update_system_keyspaces_topology}
use qubership_cassandra_oper.Operator.Build.{
  Step, BuildSpec, statefulsets, services, pvc_step, build,
}
use qubership_cassandra_oper.Operator.Build.Claims.{Planned, build-Planned}
use qubership_cassandra_oper.Operator.Reaper.{
  ReaperSpec, create_reaper_keyspace, alter_reaper_keyspace, expose_reaper, reaper_step,
}
use qubership_cassandra_oper.Operator.Reaper.Exposed.{exposed_events, reaper_step-exposed}
use qubership_cassandra_oper.Operator.Cluster.{query}

abbrev data_storage : StorageRequirements
data_storage = record {
  mount_settings =
      some (record { name = "data"; mount_path = "/var/lib/cassandra/data"; read_only = false });
  volumes = "pv" ∷ [];
  wait_pvc_bound = true;
}

-- a data center with a name, replicas and nodes to remove
abbrev center : Bool → String → ℕ → DataCenter
center deploy name replicas = record {
  deploy = deploy;
  name = name;
  cluster_domain = "remote.local";
  replicas = replicas;
  seeds = 1;
  seed_list = none;
  remove_nodes = none;
  storage = data_storage ∷ [];
  racks = [];
  broadcast_address = [];
  listen_address = [];
  rpc_broadcast_address = [];
  rpc_listen_address = [];
}

abbrev dc1 : DataCenter
dc1 = center true "dc1" 2

abbrev dc2 : DataCenter
dc2 = center true "dc2" 2

abbrev dc3 : DataCenter
dc3 = center false "dc3" 1

abbrev scaled : DataCenter
scaled = record dc1 { remove_nodes = some ((("1", "id") ∷ []) ∷ []) }

abbrev two : List DataCenter
two = dc1 ∷ dc2 ∷ []

abbrev three : List DataCenter
three = dc1 ∷ dc2 ∷ dc3 ∷ []

abbrev cluster : Cluster
cluster = record {
  delete = λ h name. none;
  create = λ h ss. none;
  wait = λ h name. none;
  apply = λ h template. none;
  expose = λ h ingress. none;
  pods = λ h. ok ("cassandra0-0" ∷ []);
  exec_remote = λ h pod cmd. ok "";
  connect = λ h user password. elim (password == "old") [ true ↦ some "denied" | false ↦ none ];
  exec = λ h stmt. none;
  peers = λ h. some 4;
  panic_value = λ e msg. msg <> ": " <> e;
}

abbrev spec : Spec
spec = record {
  data_centers = two;
  secret_name = "secret";
  envs = [];
  tls = record {
    enabled = false;
    root_ca_file_name = "";
    signed_crt_file_name = "";
    private_key_file_name = "";
    keystore_pass = "";
  };
  reaper = record {
    install = true;
    secret_name = "reaper";
    type = "sidecar";
    port = 8080;
    envs = [];
  };
  namespace = "ns";
}

abbrev context : Context
context = record {
  seeds = "cassandra0-0";
  node_labels = λ dc. [];
  pvc_names = λ dc storage. "pvc0" ∷ "pvc1" ∷ [];
  truststore_password = "changeit";
}

active_replicas_iff_example :
    (Elem 1 (get_active_replicas scaled) ↔ ((1 < 2) × (Removed 1 scaled.remove_nodes → ⊥)))
    × IncreasingFrom 0 (get_active_replicas scaled)
active_replicas_iff_example = active_replicas_iff scaled 1

replica_names_distinct_example : ◌≡◌ {A = ℕ} 1 1 × ◌≡◌ {A = ℕ} 0 0
unfolding deployed filter_dc
replica_names_distinct_example =
    replica_names_distinct three 1 1 0 0 dc2 dc2 refl refl (omega arith) (omega arith) refl

-- a run of the step
abbrev run : Outcome (Unit {0}) × List Event
run = statefulset_step cluster spec context []

statefulset_step-RollsOut_example : RollsOut (all_names (deployed two) 0 (deployed two)) [] run.1
unfolding statefulset_step deployed ◌>>◌ deploy_centers filter_dc deploy_replicas
    get_active_replicas build_statefulset address_env pvc_mounts_from replace_statefulset must
    delete_statefulset_and_pods create_statefulset wait_for_pods_ready
statefulset_step-RollsOut_example = statefulset_step-RollsOut cluster spec context [] run.1 tt refl

validate-SoundCenter_example : (1 ≤ length (deployed three)) × All SoundCenter (deployed three)
unfolding validate deployed filter_dc dcs_error get_active_replicas_len get_active_replicas
validate-SoundCenter_example = validate-SoundCenter three refl

dc_seed-names_of_example :
    dc_seed two 1 dc2
    ≡ map (pod_host dc2) (take 1 (names_of (deployed two) 1 (get_active_replicas dc2)))
dc_seed-names_of_example = dc_seed-names_of two 1 dc2 (refl, (refl, tt)) refl refl

seed_of_another_replica_example :
    (dc_seed three 1 dc2 ≡ map (pod_host dc2) (take 1 (numbered_from 0 (get_active_replicas dc2))))
    × (names_of (deployed three) 1 (get_active_replicas dc2)
        ≡ numbered_from (offset (deployed three) 1) (get_active_replicas dc2))
unfolding deployed filter_dc any_match
seed_of_another_replica_example =
    seed_of_another_replica dc1 (dc2 ∷ dc3 ∷ []) refl 1 1 dc2 refl refl refl

superuser_step-login_example :
    ((cluster.connect [] "admin" "old" ≡ none)
      × (superuser_step cluster "admin" (some "old") "new" []
          ≡ (done none, connected "admin" "old" ∷ [])))
    ⊎ ((e : String) × (cluster.connect [] "admin" "old" ≡ some e)
        × (cluster.connect (connected "admin" "old" ∷ []) cassandra cassandra ≡ none)
        × (superuser_step cluster "admin" (some "old") "new" [] ≡ (
          done (
              cluster.exec
                (connected cassandra cassandra ∷ connected "admin" "old" ∷ [])
                (create_superuser_statement "admin" "new")),
          created_events "admin" "old" "new" [],
        )))
    ⊎ ((e e' : String) × (cluster.connect [] "admin" "old" ≡ some e)
        × (cluster.connect (connected "admin" "old" ∷ []) cassandra cassandra ≡ some e')
        × (superuser_step cluster "admin" (some "old") "new" []
            ≡ (done (some e'), connected cassandra cassandra ∷ connected "admin" "old" ∷ [])))
superuser_step-login_example =
    superuser_step-login cluster "admin" "old" "new" [] (str_ne "admin" cassandra refl)

abbrev shrunk : List DataCenter
shrunk = scaled ∷ dc2 ∷ []

removed_node_is_inactive_example :
    SparesActive shrunk (remove_nodes_step cluster shrunk []).1
    × (((p : String) × ((remove_nodes_step cluster shrunk []).0 ≡ panic p))
        ⊎ Has (deleted (set_of shrunk 0 1)) (remove_nodes_step cluster shrunk []).1)
unfolding deployed filter_dc show_ℕ
removed_node_is_inactive_example =
    removed_node_is_inactive cluster shrunk 0 1 scaled ((("1", "id") ∷ []) ∷ []) []
      ((((1, refl, omega arith, omega arith), tt), tt), (tt, tt)) refl refl (inl (inl refl))
      (omega arith) tt

abbrev label_keys : LabelKeys
label_keys = record { app = "app"; microservice = "microservice" }

abbrev service_spec : ServiceSpec
service_spec = record { data_centers = two; instance_name = "cassandra-1"; reaper_port = 8080 }

-- a run of the step
abbrev served : Outcome (Unit {0}) × List Event
served = services_step cluster label_keys service_spec []

services_step-service_of_example :
    (served.1 ≡ replaced_services (service_templates label_keys service_spec) [])
    × (service : String) × Served service (service_templates label_keys service_spec)
    × (calc_service_host_name false (some dc2) "ns" "cluster.local"
        ≡ service <> "." <> "ns" <> ".svc." <> "cluster.local")
unfolding services_step service_templates replace_services replace_service must ◌>>◌ deployed
    filter_dc
services_step-service_of_example =
    services_step-service_of cluster label_keys service_spec false 1 dc2 "ns" "cluster.local" []
      served.1 tt refl refl

-- a run of the step
abbrev topology : Outcome (Unit {0}) × List Event
topology = update_system_keyspaces_topology cluster "u" "p" three []

abbrev build_spec : BuildSpec
build_spec = record {
  data_centers = two;
  user = "admin";
  recycler_install = true;
  delete_pvc_on_uninstall = false;
}

build-Planned_example :
    (before : List Step) × (after : List Step) × (build build_spec ≡ before ++ statefulsets ∷ after)
    × Planned services before
    × Planned (pvc_step build_spec 1 0 data_storage 0) before
unfolding deployed filter_dc get_active_replicas
build-Planned_example = build-Planned build_spec 1 0 0 dc2 data_storage refl refl (inl refl)

abbrev reaper_spec : ReaperSpec
reaper_spec = record {
  data_centers = three;
  tls_enabled = true;
  root_ca_secret_name = "ca";
  ingress_host = "reaper.example";
  reaper_port = 8080;
  namespace = "ns";
}

-- a run of the step
abbrev reaped : Outcome (Unit {0}) × List Event
reaped = reaper_step cluster "u" "p" reaper_spec []

reaper_step-exposed_example :
    (all_deployed : Bool) × (h₁ : List Event) × (is_all_dcs_deployed cluster "u" "p" three
        (connected "u" "p" ∷ [])
      ≡ (done all_deployed, h₁))
    × (reaped.1
        ≡ exposed_events reaper_spec (
            query (alter_reaper_keyspace (get_replication_factor all_deployed three))
            ∷ query (create_reaper_keyspace (get_replication_factor all_deployed three))
            ∷ h₁))
unfolding reaper_step is_all_dcs_deployed ◌>>◌ total_replicas get_active_replicas_len
    get_active_replicas get_session exec expose_reaper must
reaper_step-exposed_example = reaper_step-exposed cluster "u" "p" reaper_spec [] reaped.1 tt refl
