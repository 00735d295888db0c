-- ===== src/Lib.antt =====
-- Verification of the Cassandra operator, of its services operator and of its DBaaS adapter.
--
-- The program's parts. The adapter (services/dbaas-adapter) serves requests for logical databases,
-- users and roles by statements on Cassandra sessions. The operator (operator) turns a
-- CassandraDeployment into stateful sets and runs its steps one after another: validation, seeds,
-- services, stateful sets, users, removal of nodes, cleanup, topology, reaper and
-- rebuild. The services operator (services/service) waits until the operator says that Cassandra
-- is ready, and then deploys the backup daemon, the adapter and the robot tests, each by steps. The
-- three share no code but the types of Kubernetes, and meet only in the
-- cluster.
--
-- The files.
--   Base             numbers, lists, text and decimals that all parts use; Base/Go is the monad of
--                    Go code: an action reads the events so far, newest first, and gives a value or
--                    a panic with the events after it. Base/Go/Keeps, Base/Go/Made and
--                    Base/Go/Inversion carry invariants and events through actions and take runs
--                    apart.
--   Base/Maps        Go's maps of strings, as the list of their entries.
--   Kube             the types of the Kubernetes API that both operators fill: containers, pods,
--                    volumes, workloads and services. Kube/Mounted, Kube/Files and Kube/Variables say
--                    that mounts have their volumes, which files a mount shows, and the variables.
--   Adapter/Outside  the values of decoded JSON, the adapter's events, and the driver and libraries
--                    as functions of the events so far.
--   Adapter/Session  services/dbaas-adapter/impl/cassandra/cql.go, session_service.go: NewSession,
--                    NewSessionToKeyspace, NewAutoCloseSession, Exec.
--   Adapter/Service  impl/cassandra/cassandraService.go: the statements.
--   Adapter/Admin    impl/db_admin.go: state, requests, replies and small methods.
--   Adapter/Names    impl/db_admin.go: validateRequestParamsAndGetLogicalDbName.
--   Adapter/CreateDatabase  impl/db_admin.go: CreateDatabase with its deferred rollback.
--   Adapter/Users    impl/db_admin.go: CreateUser and CreateRoles.
--   Adapter/Resources  impl/db_admin.go: DropResources, GetDatabases, GetMetadata, UpdateMetadata,
--                    UpdateCassandraSettingsHandler; utils/utils.go.
--   Adapter/Leaks    the sessions of all handlers.
--   Operator/Streams      operator/pkg/impl/utils/stream.go.
--   Operator/DataCenters  operator/api/v1alpha1/cassandra_types.go, and FilterDC and
--                    CalcReplicaIndex of operator/pkg/impl/utils/utils.go.
--   Operator/Hosts   operator/pkg/impl/utils/utils.go: names of hosts, pods and services.
--   Operator/Seeds   operator/pkg/impl/common/seeds_step.go.
--   Operator/Validation   operator/pkg/impl/common/initial_validations_step.go.
--   Operator/Cluster the operator's events, and Kubernetes, pods and Cassandra as functions of the
--                    events so far; the helpers on pods and sessions of utils.go.
--   Operator/StatefulSets operator/pkg/impl/cassandra/statefulsets_step.go.
--   Operator/Users   operator/pkg/impl/utils/utils.go, pkg/impl/cassandra/user_steps.go.
--   Operator/Scaling operator/pkg/impl/cassandra/scaling.go.
--   Operator/Topology     operator/pkg/impl/cassandra/system_keyspaces.go, nodetool_rebuild.go, and
--                    IsAllDCsDeployed and ExecuteNodetoolCommand of utils.go.
--   Operator/Services     operator/pkg/impl/cassandra/service_step.go, serivce_lb_step.go.
--   Operator/Reaper  operator/pkg/impl/cassandra/reaper.go.
--   Operator/Build   operator/pkg/impl/cassandra/cassandra.go: the list of the steps.
--   Operator/Template     operator/pkg/impl/cassandra/templates.go: CassandraReplicaTemplate and
--                    CassandraConsulServiceRegistrationCast (Operator/Template/Registration).
--   Operator/Configuration  operator/pkg/impl/cassandra/configmaps_step.go.
--   Operator/Smoke   operator/pkg/impl/utils/cassandra_metric.go, and from pkg/impl/fiber the
--                    construction of the collector and a round of calculateMetrics.
--   Services/Resource services/service/api/v1alpha1/cassandraservices_types.go.
--   Services/Platform the actions of the services operator, and Kubernetes, pods, Cassandra and
--                    the credential manager as functions of the actions so far.
--   Services/Labels, Services/Pods  services/service/pkg/utils/utils.go.
--   Services/SshKeys services/service/pkg/backup/ssh_key_step.go.
--   Services/Backup  services/service/pkg/backup: templates.go, deployment.go and
--                    backup_service_step.go.
--   Services/Dbaas   services/service/pkg/dbaas: templates.go, deployment_step.go and
--                    dbaas_service_step.go.
--   Services/Robot   services/service/pkg/robotTests: templates.go and deployment_step.go.
--   Services/Build   the builders of the three services and of their compound, in pkg/service.go,
--                    backup.go, dbaas.go and robot_tests.go.
--   Services/Readiness  services/service/controllers/cassandraservices_controller.go.
--   Services/Created the objects that the steps create.
--   Adapter/Examples, Operator/Examples, Operator/ReplicaExamples, Services/Examples  the theorems
--                    at concrete inputs.
--
-- Bounds and loops. Every loop is a recursion on the list or the count that the code walks. NewSession
-- takes its number of tries, 3 as in the code, and the ssh key step takes the number that it has
-- left, TriesCount but at least 1, so there is no fuel to run out of. The poll of the status is the
-- list of the answers that come before its time is over. Counts
-- of the resource are natural numbers, so negative ones are outside the model, and sums do not wrap
-- at 64 bits; decimal texts are read within the range of int.
--
-- What is not modelled. Logging; the reading of the trust store's secret, whose password is a value
-- of the context; the builder of the driver's cluster, of which the hosts, the user and the TLS
-- settings are the argument of a connection. A Go map is the list of its entries in the order of
-- iteration, and the goroutines of ExecuteNodetoolCommand run in the order of their start. The
-- value with which the libraries' PanicError panics, the driver, Kubernetes, PrepareDatabaseName,
-- the JSON and YAML libraries, UUIDs, key pairs, the search for a version in the name of an image,
-- the credential manager and the label keys of the core library are parameters. Resource
-- quantities, tolerations and security contexts of pods are passed on unread. The controllers but
-- for the wait above, the HTTP handlers of the fiber server, the check for changed parameters,
-- generated code, charts, images and the backup daemon's scripts have no model here.
pub mod Base
pub mod Kube
pub mod Adapter
pub mod Operator
pub mod Services
