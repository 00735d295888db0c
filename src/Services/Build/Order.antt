-- ===== src/Services/Build/Order.antt =====
-- pkg/backup/backup.go: what the deployment of the daemon finds when its turn comes.
use qubership_cassandra_oper.Base.{
  String, false, some, List, [], ◌∷◌, ◌≡◌, ◌⊎◌, ◌↔◌, inl, inr, refl, Bool-cases,
}
use qubership_cassandra_oper.Base.Maps.{StringMap}
use qubership_cassandra_oper.Base.Go.{done, ◌>>◌}
use qubership_cassandra_oper.Services.Resource.{BackupStorage, ServicesSpec}
use qubership_cassandra_oper.Services.Platform.{Action}
use qubership_cassandra_oper.Services.Backup.Step.{
  BackupContext, first_labels, first_name, stored, storage_of,
}
use qubership_cassandra_oper.Services.Build.{
  PvcStep, ServiceStep, create_pvc, store_nodes, backup_service, ssh_keys, backup_deployment,
  backup_steps,
}

-- the steps before the deployment of the daemon
abbrev pub before_deployment : List ServiceStep → List ServiceStep
before_deployment [] = []
before_deployment (backup_deployment ∷ steps) = []
before_deployment (create_pvc p ∷ steps) = create_pvc p ∷ before_deployment steps
before_deployment (store_nodes v ∷ steps) = store_nodes v ∷ before_deployment steps
before_deployment (backup_service ∷ steps) = backup_service ∷ before_deployment steps
before_deployment (ssh_keys ∷ steps) = ssh_keys ∷ before_deployment steps
before_deployment (s ∷ steps) = s ∷ before_deployment steps

-- the context has what the steps store: a claim at least, and the labels of the nodes
abbrev pub Provides : BackupContext → List ServiceStep → Type 0
Provides ctx [] = Unit
Provides ctx (create_pvc p ∷ steps) =
    ((name : String) × (names : List String) × (ctx.pvc_names p.context_var_to_store
        ≡ some (name ∷ names)))
    × Provides ctx steps
Provides ctx (store_nodes v ∷ steps) =
    ((labels : List StringMap) × (ctx.node_labels v ≡ some labels)) × Provides ctx steps
Provides ctx (_ ∷ steps) = Provides ctx steps

-- the step stands in the list
abbrev pub Planned : ServiceStep → List ServiceStep → Type 0
Planned s [] = ⊥
Planned s (x ∷ xs) = (s ≡ x) ⊎ Planned s xs

no_keys :
    {p : PvcStep} {v : String}
    → Planned ssh_keys (create_pvc p ∷ store_nodes v ∷ backup_service ∷ [])
    → ⊥
no_keys (inl e) = cc
no_keys (inr (inl e)) = cc
no_keys (inr (inr (inl e))) = cc
no_keys (inr (inr (inr x))) = x

-- the deployment's place in the steps, by the two settings
steps-Planned :
    (spec : ServicesSpec) (storage : BackupStorage)
    → Planned backup_service (before_deployment (backup_steps spec storage))
      × (Planned ssh_keys (before_deployment (backup_steps spec storage))
          ↔ (spec.aws_keyspaces.install ≡ false))
unfolding backup_steps
steps-Planned spec storage = elim (Bool-cases storage.empty_dir) [
  | inl emptied ↦ elim (Bool-cases spec.aws_keyspaces.install) [
    | inl aws ↦
        rw (emptied, aws) (inl refl, (λ p. elim p [ inl e ↦ cc | inr q ↦ absurd q ], λ e. cc))
    | inr own ↦ rw (emptied, own) (inl refl, (λ p. refl, λ e. inr (inl refl)))
  ]
  | inr claimed ↦ elim (Bool-cases spec.aws_keyspaces.install) [
    | inl aws ↦ rw (claimed, aws) (inr (inr (inl refl)), (λ p. absurd (no_keys p), λ e. cc))
    | inr own ↦
        rw (claimed, own) (inr (inr (inl refl)), (λ p. refl, λ e. inr (inr (inr (inl refl)))))
  ]
]

-- Where the context has what the steps before the deployment of the daemon store, the deployment
-- finds its claim and the labels of its nodes without a panic, whether or not the storage is an
-- empty directory. The service stands among those steps, and the step of the keys does exactly when
-- AWS keyspaces are not installed.
pub backup_steps-Provides :
    (spec : ServicesSpec) (storage : BackupStorage) (ctx : BackupContext) (h : List Action)
    → Provides ctx (before_deployment (backup_steps spec storage))
    → ((claimed : String × StringMap) × (storage_of ctx storage h ≡ (done claimed, h)))
      × Planned backup_service (before_deployment (backup_steps spec storage))
      × (Planned ssh_keys (before_deployment (backup_steps spec storage))
          ↔ (spec.aws_keyspaces.install ≡ false))
unfolding backup_steps storage_of first_name stored ◌>>◌
backup_steps-Provides spec storage ctx h given =
    let (first, keyed) = steps-Planned spec storage in
    (
      elim (Bool-cases storage.empty_dir) [
        | inl emptied ↦ rw emptied (("", []), refl)
        | inr claimed ↦
            let ((name, names, e), ((labels, e'), _)) = rw claimed at given in
            rw (claimed, e, e') ((name, first_labels labels), refl)
      ],
      first,
      keyed,
    )
