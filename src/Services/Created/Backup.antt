-- ===== src/Services/Created/Backup.antt =====
-- pkg/backup: the deployment of the backup daemon.
use qubership_cassandra_oper.Base.{String, Option, List, [], ◌∷◌}
use qubership_cassandra_oper.Base.Maps.{StringMap}
use qubership_cassandra_oper.Base.Go.Keeps.{Keeps, Keeps-bind, Keeps-case_option, keeps_rules}
use qubership_cassandra_oper.Kube.{EnvVar, Opaque, Workload}
use qubership_cassandra_oper.Services.Resource.{SchemaDataCenter, BackupStorage, ServicesSpec}
use qubership_cassandra_oper.Services.Platform.{Platform}
use qubership_cassandra_oper.Services.Labels.{fill_workload}
use qubership_cassandra_oper.Services.Backup.Step.{
  BackupContext, backup_labels, first_name, stored, storage_of, daemon_envs, filled_daemon,
  deploy_daemon, backup_deployment_step,
}
use qubership_cassandra_oper.Services.Created.{
  AllCreated, Keeps-ask, Keeps-deref, Keeps-demand, Keeps-create_workload,
}

Keeps-stored : (P : Workload → Type 0) {A : Type 0} (o : Option A) → Keeps (AllCreated P) (stored o)
unfolding stored
Keeps-stored P o = search keeps_rules

Keeps-first_name :
    (P : Workload → Type 0) (names : List String) → Keeps (AllCreated P) (first_name names)
unfolding first_name
Keeps-first_name P [] = search keeps_rules
Keeps-first_name P (name ∷ names) = search keeps_rules

module _ (P : Workload → Type 0) (k : Platform) (spec : ServicesSpec) (namespace : String) where
  Keeps-storage_of :
      (ctx : BackupContext) (storage : BackupStorage)
      → Keeps (AllCreated P) (storage_of ctx storage)
  unfolding storage_of
  Keeps-storage_of ctx storage = search (keeps_rules, Keeps-stored P, Keeps-first_name P)

  Keeps-daemon_envs :
      (dcs : List SchemaDataCenter) → Keeps (AllCreated P) (daemon_envs k spec namespace dcs)
  unfolding daemon_envs
  Keeps-daemon_envs dcs = search (keeps_rules, Keeps-ask P)

  Keeps-deploy_daemon :
      (dc : Workload)
      → P (fill_workload spec backup_labels dc)
      → Keeps (AllCreated P) (deploy_daemon k spec namespace dc)
  unfolding deploy_daemon
  Keeps-deploy_daemon dc holds = Keeps-bind _ _ (Keeps-ask P _ _ (λ h p. p)) λ err.
      Keeps-case_option err _ _
        (Keeps-bind _ _ (Keeps-create_workload P k spec dc backup_labels holds)
          λ err'. search (keeps_rules, Keeps-demand P))
        (λ e. search keeps_rules)

  -- what holds of the template with its certificates and labels holds of what the step creates
  pub Keeps-backup_deployment_step :
      (ctx : BackupContext)
      → ((claimed : String × StringMap) (resources : Opaque) (envs : List EnvVar)
            (annotations : StringMap)
          → P (filled_daemon k spec namespace claimed resources envs annotations))
      → Keeps (AllCreated P) (backup_deployment_step k spec namespace ctx)
  unfolding backup_deployment_step
  Keeps-backup_deployment_step ctx holds =
      search
        (
          keeps_rules,
          Keeps-ask P,
          Keeps-deref P,
          Keeps-storage_of,
          Keeps-daemon_envs,
          λ (claimed : String × StringMap) (resources : Opaque) (envs : List EnvVar)
                (annotations : StringMap).
              Keeps-deploy_daemon _ (holds claimed resources envs annotations),
        )
        depth 16
