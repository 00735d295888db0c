-- ===== src/Services/Created/Served.antt =====
-- pkg/backup and pkg/dbaas: the services and the deployments behind them.
use qubership_cassandra_oper.Base.{
  ℕ, String, Option, none, some, List, [], ◌∷◌, ◌≡◌, ◌∙◌, inl, inr, refl, sym, ap, Option-cases,
}
use qubership_cassandra_oper.Base.Maps.{StringMap, lookup, Selects}
use qubership_cassandra_oper.Base.Go.{done, ◌>>◌}
use qubership_cassandra_oper.Base.Go.Inversion.{not_done, done-injective}
use qubership_cassandra_oper.Kube.{
  EnvVar, Opaque, Workload, SimpleService, Probe, tcp_socket, http_get, PodSpec,
}
use qubership_cassandra_oper.Services.Resource.{S3Backup, ServicesSpec}
use qubership_cassandra_oper.Services.Platform.{Action, created_service, deleted_service, Platform}
use qubership_cassandra_oper.Services.Labels.{fill_workload, fill_service, create_service}
use qubership_cassandra_oper.Services.Labels.Selected.{fill_workload-name}
use qubership_cassandra_oper.Services.Pods.{get_http_port}
use qubership_cassandra_oper.Kube.Variables.{env_var}
use qubership_cassandra_oper.Services.Pods.Left.{
  Leaves, Leaves-refl, Leaves-trans, if-Leaves, extend_pod-Leaves, tls_client_update-Leaves,
  tls_server_update-Leaves,
}
use qubership_cassandra_oper.Services.Backup.Template.{
  backup_daemon, legacy_backup_deployment_template,
}
use qubership_cassandra_oper.Services.Backup.Step.{
  BackupContext, backup_labels, s3_update, daemon_workload, certified, certified_daemon,
  filled_daemon, backup_deployment_step, filled_backup_service, backup_service_step,
}
use qubership_cassandra_oper.Services.Created.{AllCreated}
use qubership_cassandra_oper.Services.Created.Backup.{Keeps-backup_deployment_step}

-- the port that a probe looks at
abbrev pub probe_port : Probe → ℕ
probe_port p = elim p.handler [ tcp_socket port ↦ port | http_get path port scheme ↦ port ]

-- the probes of the container look at the port
abbrev pub Probed : ℕ → Option Probe → Type 0
Probed port none = ⊥
Probed port (some p) = probe_port p ≡ port

-- The service selects the pods of the workload, in its namespace, and its one port is the one that
-- the container opens and that its probes look at.
abbrev pub Serves : SimpleService → Workload → Type 0
Serves s w =
    Selects s.selectors w.pod_labels
    × (s.namespace ≡ w.namespace)
    × (port : ℕ) × (s.ports ≡ ("http", port) ∷ [])
    × (w.pod.container.ports
        ≡ record { name = "http"; container_port = port; protocol = "TCP" } ∷ [])
    × Probed port w.pod.container.liveness_probe
    × Probed port w.pod.container.readiness_probe

s3_update-Leaves : (s3 : S3Backup) (pod : PodSpec) → Leaves pod (s3_update s3 pod)
unfolding env_var s3_update
s3_update-Leaves s3 pod =
    if-Leaves s3.ssl_verify pod _ _ (extend_pod-Leaves _ _ [] pod (λ n other. refl))
      (Leaves-refl pod)

module _ (k : Platform) (spec : ServicesSpec) (namespace : String) where
  certified-Leaves : (pod : PodSpec) → Leaves pod (certified k spec namespace pod)
  unfolding certified
  certified-Leaves pod = Leaves-trans (s3_update-Leaves spec.backup.s3 pod) (
      Leaves-trans (tls_client_update-Leaves _ spec.tls _)
        (tls_server_update-Leaves spec.tls _ _ _))

  filled_backup_service-Serves :
      (claimed : String × StringMap) (resources : Opaque) (envs : List EnvVar)
      (annotations : StringMap)
      → Serves
          (filled_backup_service k spec namespace)
          (filled_daemon k spec namespace claimed resources envs annotations)
  unfolding fill_service fill_workload daemon_workload legacy_backup_deployment_template
  filled_backup_service-Serves claimed resources envs annotations =
      let left = certified-Leaves (daemon_workload k spec namespace claimed resources envs).pod in
      (
        (
          fill_workload-name spec backup_labels
                (certified_daemon k spec namespace claimed resources envs annotations)
              ∙ unfold lookup in refl,
          tt,
        ),
        refl,
        get_http_port spec.tls.enabled,
        refl,
        left.ports,
        rw left.liveness refl,
        rw left.readiness refl,
      )

  -- a run of the backup's service step that ends without a panic
  backup_service_step-done :
      (h h' : List Action) (o : Option String)
      → backup_service_step k spec namespace h ≡ (done o, h')
      → (o ≡ none)
        × (h'
            ≡ created_service (filled_backup_service k spec namespace)
              ∷ deleted_service backup_daemon
              ∷ h)
  unfolding backup_service_step create_service ◌>>◌
  backup_service_step-done h h' o p =
      elim (Option-cases (
        k.create_service (deleted_service backup_daemon ∷ h)
          (filled_backup_service k spec namespace))) [
            | inl fine ↦
                let q = rw fine at p in
                (sym (done-injective none o (ap (λ r. r.0) q)), sym (ap (λ r. r.1) q))
            | inr (e, bad) ↦ absurd (not_done (rw bad at p))
          ]

  -- A run of the backup's service step that ends without a panic has no error and leaves one new
  -- service, created after the old one's removal. A run of the deployment step after it keeps that
  -- the service serves each workload created so far: it selects its pods in its namespace, and its
  -- port is the one that the container opens and that both its probes look at.
  pub backup_service_step-Serves :
      (ctx : BackupContext) (h h' : List Action) (o : Option String)
      → backup_service_step k spec namespace h ≡ (done o, h')
      → AllCreated (Serves (filled_backup_service k spec namespace)) h
      → (o ≡ none)
        × (h'
            ≡ created_service (filled_backup_service k spec namespace)
              ∷ deleted_service backup_daemon
              ∷ h)
        × AllCreated
            (Serves (filled_backup_service k spec namespace))
            (backup_deployment_step k spec namespace ctx h').1
  backup_service_step-Serves ctx h h' o p before =
      let s = filled_backup_service k spec namespace in
      let (fine, ends) = backup_service_step-done h h' o p in
      (
        fine,
        ends,
        rw ends (
            (Keeps-backup_deployment_step (Serves s) k spec namespace ctx
                filled_backup_service-Serves).at
              _ before),
      )
