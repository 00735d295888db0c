-- ===== src/Services/Created/Deployable.antt =====
-- pkg/backup, pkg/dbaas, pkg/robotTests: whatever the steps of the services create can be run.
use qubership_cassandra_oper.Base.{
  String, false, none, some, List, [], ◌∷◌, ◌≡◌, ◌∙◌, inl, inr, refl, Bool-cases,
}
use qubership_cassandra_oper.Base.Maps.{StringMap, lookup, Selects}
use qubership_cassandra_oper.Kube.{EnvVar, Opaque, Workload, PodSpec}
use qubership_cassandra_oper.Kube.Mounted.{IsMounted, MountsHeld-join, MountsHeld-append_right}
use qubership_cassandra_oper.Services.Resource.{
  S3Backup, SchemaDataCenter, DbaasAggregatorCredentials, DbaasAdapterCredentials, ServicesSpec,
}
use qubership_cassandra_oper.Services.Platform.{Action, Platform}
use qubership_cassandra_oper.Services.Labels.{BasicLabels, fill_workload}
use qubership_cassandra_oper.Services.Labels.Selected.{fill_workload-name}
use qubership_cassandra_oper.Services.Pods.{secret_volumes, secret_mounts}
use qubership_cassandra_oper.Services.Pods.Held.{
  extend_pod-IsMounted, tls_client_update-IsMounted, tls_server_update-IsMounted,
  secret_mounts-MountsHeld,
}
use qubership_cassandra_oper.Services.Backup.Template.{
  backup_daemon, legacy_backup_mounts, legacy_backup_volumes, legacy_backup_deployment_template,
}
use qubership_cassandra_oper.Services.Backup.Step.{
  BackupContext, backup_labels, backup_secrets, s3_update, daemon_workload, certified,
  filled_daemon, backup_deployment_step,
}
use qubership_cassandra_oper.Services.Dbaas.Template.{
  dbaas_name, label_volume, dbaas_deployment_template,
}
use qubership_cassandra_oper.Services.Dbaas.Step.{
  adapter_labels, adapter_tls, dbaas_secrets, adapter_workload, adapter_certified, filled_adapter,
  dbaas_deployment_step,
}
use qubership_cassandra_oper.Services.Robot.{
  robot_name, robot_basic_labels, robot_template, robot_own_volumes, robot_own_mounts,
  robot_workload, filled_robot, robot_deployment_step,
}
use qubership_cassandra_oper.Services.Created.{AllCreated}
use qubership_cassandra_oper.Services.Created.Backup.{Keeps-backup_deployment_step}
use qubership_cassandra_oper.Services.Created.Dbaas.{Keeps-dbaas_deployment_step}
use qubership_cassandra_oper.Services.Created.Robot.{Keeps-robot_deployment_step}

-- a workload whose mounts have their volumes and whose selector takes its own pods
abbrev pub IsDeployable : Workload → Type 0
IsDeployable w = IsMounted w.pod × Selects w.match_labels w.pod_labels

-- the labels and the settings of the resource leave alone the mounts, and the name that selects
fill_workload-IsDeployable :
    (spec : ServicesSpec) (labels : BasicLabels) (w : Workload) (name : String)
    → IsMounted w.pod
    → w.match_labels ≡ ("name", name) ∷ []
    → lookup "name" w.pod_labels ≡ some name
    → IsDeployable (fill_workload spec labels w)
unfolding fill_workload
fill_workload-IsDeployable spec labels w name mounted sel named =
    (mounted, rw sel (fill_workload-name spec labels w ∙ named, tt))

s3_update-IsMounted : (s3 : S3Backup) (pod : PodSpec) → IsMounted pod → IsMounted (s3_update s3 pod)
unfolding s3_update
s3_update-IsMounted s3 pod h = elim (Bool-cases s3.ssl_verify) [
  | inl on ↦ rw on (extend_pod-IsMounted _ _ [] pod (inl refl, tt) h)
  | inr off ↦ rw off h
]

module _ (k : Platform) (spec : ServicesSpec) (namespace : String) where
  daemon_workload-IsMounted :
      (claimed : String × StringMap) (resources : Opaque) (envs : List EnvVar)
      → IsMounted (daemon_workload k spec namespace claimed resources envs).pod
  unfolding daemon_workload legacy_backup_deployment_template legacy_backup_mounts
      legacy_backup_volumes
  daemon_workload-IsMounted claimed resources envs =
      let secrets = k.iterate (backup_secrets spec) in
      (
        MountsHeld-join
            (legacy_backup_volumes
              (elim spec.backup.storage [ none ↦ false | some s ↦ s.empty_dir ]) claimed.0)
            (secret_volumes secrets) (legacy_backup_mounts spec.backup.storage_directory)
            (secret_mounts secrets)
            (
              inl refl,
              (
                inr (inl refl),
                (
                  inr (inr (inr (inl refl))),
                  (inr (inr (inl refl)), (inr (inr (inr (inr (inl refl)))), tt)),
                ),
              ),
            )
            (secret_mounts-MountsHeld secrets),
        tt,
      )

  certified-IsMounted : (pod : PodSpec) → IsMounted pod → IsMounted (certified k spec namespace pod)
  unfolding certified
  certified-IsMounted pod h =
      tls_server_update-IsMounted spec.tls _ _ _
        (tls_client_update-IsMounted _ spec.tls _ (s3_update-IsMounted spec.backup.s3 pod h))

  adapter_workload-IsMounted :
      (aggregator : DbaasAggregatorCredentials) (adapter : DbaasAdapterCredentials)
      (resources : Opaque)
      → IsMounted (adapter_workload k spec namespace aggregator adapter resources).pod
  unfolding adapter_workload dbaas_deployment_template
  adapter_workload-IsMounted aggregator adapter resources =
      let secrets = k.iterate (dbaas_secrets spec adapter aggregator) in
      (
        (
          inl refl,
          MountsHeld-append_right (label_volume ∷ []) (secret_volumes secrets)
              (secret_mounts secrets) (secret_mounts-MountsHeld secrets),
        ),
        tt,
      )

  adapter_certified-IsMounted :
      (aggregator : DbaasAggregatorCredentials) (pod : PodSpec)
      → IsMounted pod
      → IsMounted (adapter_certified k spec namespace aggregator pod)
  unfolding adapter_certified
  adapter_certified-IsMounted aggregator pod h =
      let client = tls_client_update-IsMounted "/usr/ssl/" spec.tls pod h in
      elim (Bool-cases (adapter_tls spec aggregator)) [
        | inl on ↦ rw on (tls_server_update-IsMounted spec.tls _ _ _ client)
        | inr off ↦ rw off client
      ]

  robot_workload-IsMounted :
      (secrets : StringMap) (dc : SchemaDataCenter) (resources : Opaque)
      → IsMounted (robot_workload k spec namespace secrets dc resources).pod
  unfolding robot_workload robot_template
  robot_workload-IsMounted secrets dc resources =
      let iterated = k.iterate secrets in
      (
        MountsHeld-join (secret_volumes iterated) robot_own_volumes (secret_mounts iterated)
            robot_own_mounts (secret_mounts-MountsHeld iterated) (inl refl, (inr (inl refl), tt)),
        tt,
      )

  filled_daemon-IsDeployable :
      (claimed : String × StringMap) (resources : Opaque) (envs : List EnvVar)
      (annotations : StringMap)
      → IsDeployable (filled_daemon k spec namespace claimed resources envs annotations)
  unfolding daemon_workload legacy_backup_deployment_template lookup
  filled_daemon-IsDeployable claimed resources envs annotations =
      fill_workload-IsDeployable spec backup_labels _ backup_daemon
        (certified-IsMounted _ (daemon_workload-IsMounted claimed resources envs)) refl refl

  filled_adapter-IsDeployable :
      (aggregator : DbaasAggregatorCredentials) (adapter : DbaasAdapterCredentials)
      (resources : Opaque) (annotations : StringMap)
      → IsDeployable (filled_adapter k spec namespace aggregator adapter resources annotations)
  unfolding adapter_workload dbaas_deployment_template lookup
  filled_adapter-IsDeployable aggregator adapter resources annotations =
      fill_workload-IsDeployable spec adapter_labels _ dbaas_name
        (adapter_certified-IsMounted aggregator _
          (adapter_workload-IsMounted aggregator adapter resources))
        refl refl

  filled_robot-IsDeployable :
      (secrets : StringMap) (current_dc : SchemaDataCenter) (resources : Opaque)
      (annotations : StringMap)
      → IsDeployable (filled_robot k spec namespace secrets current_dc resources annotations)
  unfolding robot_workload robot_template lookup
  filled_robot-IsDeployable secrets current_dc resources annotations =
      fill_workload-IsDeployable spec robot_basic_labels _ robot_name
        (tls_client_update-IsMounted "/usr/ssl/" spec.tls _
          (robot_workload-IsMounted secrets current_dc resources))
        refl refl

  -- The deployment steps of the backup daemon, of the DBaaS adapter and of the robot tests keep, on
  -- every branch and also where they fail, that in each workload created so far each container
  -- mounts only volumes of its pod, and the selector takes the workload's own pods.
  pub deployment_steps-IsDeployable :
      (ctx : BackupContext) (h : List Action)
      → AllCreated IsDeployable h
      → AllCreated IsDeployable (backup_deployment_step k spec namespace ctx h).1
        × AllCreated IsDeployable (dbaas_deployment_step k spec namespace h).1
        × AllCreated IsDeployable (robot_deployment_step k spec namespace h).1
  deployment_steps-IsDeployable ctx h p = (
    (Keeps-backup_deployment_step IsDeployable k spec namespace ctx filled_daemon-IsDeployable).at h
        p,
    (Keeps-dbaas_deployment_step IsDeployable k spec namespace
          (λ aggregator adapter resources annotations _.
            filled_adapter-IsDeployable aggregator adapter resources annotations)).at
        h p,
    (Keeps-robot_deployment_step IsDeployable k spec namespace filled_robot-IsDeployable).at h p,
  )
