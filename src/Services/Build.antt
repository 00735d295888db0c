-- ===== src/Services/Build.antt =====
-- pkg/service.go, pkg/backup/backup.go, pkg/dbaas/dbaas.go and pkg/robotTests/robot_tests.go: the
-- steps of the services, in their order.
pub mod Order
use qubership_cassandra_oper.Base.{
  ℕ, zero, suc, String, Bool, true, false, Option, none, some, List, [], ◌∷◌, ◌++◌, ◌||◌,
  if◌then◌else◌,
}
use qubership_cassandra_oper.Base.Maps.{StringMap}
use qubership_cassandra_oper.Base.Go.{Outcome, done, panic, Result, ok, fail}
use qubership_cassandra_oper.Services.Resource.{BackupStorage, ServicesSpec}
use qubership_cassandra_oper.Services.Backup.Template.{daemon_labels}
use qubership_cassandra_oper.Services.Backup.Step.{pvc_variable, nodes_variable}

-- what distinguishes the core library's step that creates claims
pub record PvcStep : Type 0 where
  pub name_format : String
  pub label_selector : StringMap
  pub context_var_to_store : String
  pub pvc_count : ℕ
  pub wait_timeout : ℕ
  pub owned : Bool
  pub wait_pvc_bound : Bool

pub data ServiceStep : Type 0 where
  create_pvc : PvcStep → ServiceStep
  store_nodes : String → ServiceStep
  backup_service ssh_keys backup_deployment : ServiceStep
  dbaas_service dbaas_deployment : ServiceStep
  robot_deployment : ServiceStep

-- the core library's kinds of a deployment
pub data DeployType : Type 0 where
  empty clean_deploy update : DeployType

-- a compound: its name, and its steps
pub record ServiceCompound : Type 0 where
  pub service_name : String
  pub steps : List ServiceStep

-- the closure `CalcDeployType` of the backup, on the number of its claims or the error of the list
unfoldable pub backup_deploy_type : Result ℕ → DeployType × Option String
backup_deploy_type (fail e) = (empty, some e)
backup_deploy_type (ok zero) = (clean_deploy, none)
backup_deploy_type (ok (suc _)) = (update, none)

-- `Condition`: the check of the service's part, with its error, and of the common parameters
unfoldable pub changed : Bool × Option String → Bool → Bool × Option String
changed (own, some e) common = (own, some e)
changed (own, none) common = (own || common, none)

abbrev pub backup_pvc_step : ServicesSpec → BackupStorage → PvcStep
backup_pvc_step spec storage = record {
  name_format = "backup-data-%v";
  label_selector = daemon_labels;
  context_var_to_store = pvc_variable;
  pvc_count = 1;
  wait_timeout = spec.wait_timeout;
  owned = spec.delete_pvc_on_uninstall;
  wait_pvc_bound = storage.wait_pvc_bound;
}

-- `Build` of the backup; a storage that is nil is dereferenced
unfoldable pub backup_steps : ServicesSpec → BackupStorage → List ServiceStep
backup_steps spec storage =
    (if storage.empty_dir
      then []
      else create_pvc (backup_pvc_step spec storage) ∷ store_nodes nodes_variable ∷ [])
    ++ backup_service ∷ (if spec.aws_keyspaces.install then [] else ssh_keys ∷ [])
    ++ backup_deployment ∷ []

unfoldable pub build_backup : ServicesSpec → Outcome ServiceCompound
unfolding backup_steps
build_backup spec = elim spec.backup.storage [
  | none ↦ panic "runtime error: invalid memory address or nil pointer dereference"
  | some storage ↦ done (record { service_name = "backup"; steps = backup_steps spec storage })
]

abbrev pub build_dbaas : ServiceCompound
build_dbaas = record { service_name = "dbaas"; steps = dbaas_service ∷ dbaas_deployment ∷ [] }

abbrev pub build_robot : ServiceCompound
build_robot = record { service_name = "robot-tests"; steps = robot_deployment ∷ [] }

abbrev then_compounds :
    Outcome (List ServiceCompound) → List ServiceCompound → Outcome (List ServiceCompound)
then_compounds (done cs) ds = done (cs ++ ds)
then_compounds (panic p) ds = panic p

-- the compounds of the backup, if it is installed, in either mode
unfoldable pub backup_compounds : ServicesSpec → Outcome (List ServiceCompound)
unfolding build_backup
backup_compounds spec =
    if spec.backup.install
    then elim (build_backup spec) [ done c ↦ done (c ∷ []) | panic p ↦ panic p ]
    else done []

-- `Build`, from the steps on
unfoldable pub build_services : ServicesSpec → Outcome (List ServiceCompound)
unfolding backup_compounds
build_services spec = then_compounds (backup_compounds spec) (
    (if spec.dbaas.install then build_dbaas ∷ [] else [])
    ++ (if spec.robot_tests.install then build_robot ∷ [] else []))
