-- ===== src/Operator/Validation.antt =====
-- pkg/impl/common/initial_validations_step.go.
pub mod Accepted
use qubership_cassandra_oper.Base.{
  ℕ, zero, suc, ◌+◌, String, Bool, true, false, not, Option, none, some, List, [], ◌∷◌, ◌<>◌, ◌==◌,
  ◌&&◌, ◌||◌, ltb, eqb, if◌then◌else◌,
}
use qubership_cassandra_oper.Base.Decimal.{show_ℕ}
use qubership_cassandra_oper.Base.Lists.{length}
use qubership_cassandra_oper.Base.Go.{Outcome, done, panic}
use qubership_cassandra_oper.Operator.DataCenters.{
  DataCenter, VolumeMount, StorageRequirements, get_active_replicas_len, deployed,
}

unfoldable pub seed_number : DataCenter → ℕ
seed_number dc = elim dc.seed_list [ none ↦ dc.seeds | some l ↦ length l ]

-- the first storage is the data directory
unfoldable pub is_data_mount : Option VolumeMount → Bool
is_data_mount none = false
is_data_mount (some m) = m.name == "data" && m.mount_path == "/var/lib/cassandra/data"

clashes : VolumeMount → Option VolumeMount → Bool
clashes first none = false
clashes first (some second) = first.mount_path == second.mount_path || first.name == second.name

-- the inner loop: does a storage at another index share the path or the name
overlaps : VolumeMount → ℕ → ℕ → List StorageRequirements → Bool
unfolding clashes
overlaps first ifirst isecond [] = false
overlaps first ifirst isecond (second ∷ rest) =
    not (eqb ifirst isecond) && clashes first second.mount_settings
    || overlaps first ifirst (suc isecond) rest

abbrev pub empty_mount_error : String → String
empty_mount_error dc =
    "Check " <> dc <> " datacenter's storage mount settings. Name or MountPath is empty"

abbrev pub overlapping_error : String → String
overlapping_error dc = dc <> " datacenter's storage elements mount settings are overlapping"

mount_error : String → ℕ → List StorageRequirements → Option VolumeMount → Option String
unfolding overlaps
mount_error dc ifirst all none = some (empty_mount_error dc)
mount_error dc ifirst all (some m) =
    if m.mount_path == "" || m.name == ""
    then some (empty_mount_error dc)
    else if overlaps m ifirst 0 all
    then some (overlapping_error dc)
    else none

-- the outer loop, with the storages that are left
unfoldable pub storage_error :
    String → ℕ → List StorageRequirements → List StorageRequirements → Option String
unfolding mount_error
storage_error dc ifirst all [] = none
storage_error dc ifirst all (first ∷ rest) =
    let later = storage_error dc (suc ifirst) all rest in
    elim (mount_error dc ifirst all first.mount_settings) [ some e ↦ some e | none ↦ later ]

-- `dc.Storage[0]` panics where there is no storage
unfoldable pub first_storage_error : DataCenter → List StorageRequirements → Outcome (Option String)
unfolding is_data_mount storage_error
first_storage_error dc [] = panic "runtime error: index out of range [0] with length 0"
first_storage_error dc (first ∷ rest) =
    if is_data_mount first.mount_settings
    then done (storage_error dc.name 0 (first ∷ rest) (first ∷ rest))
    else done
        (some (dc.name <> " datacenter's first storage element mount settings are overridden"))

unfoldable pub dc_error : DataCenter → Outcome (Option String)
unfolding seed_number first_storage_error
dc_error dc =
    if ltb (get_active_replicas_len dc) 1
    then done (some ("Replicas count of '" <> dc.name <> "' dc is lower than 1"))
    else if ltb (seed_number dc) 1
    then done (
        some (
          "Seeds count of '"
          <> dc.name
          <> "' dc is lower than 1 or more than replicas count. (seeds: "
          <> show_ℕ (seed_number dc)
          <> ", replicas: "
          <> show_ℕ (get_active_replicas_len dc)
          <> ")"))
    else first_storage_error dc dc.storage

unfoldable pub dcs_error : List DataCenter → Outcome (Option String)
unfolding dc_error
dcs_error [] = done none
dcs_error (dc ∷ dcs) =
    let rest = dcs_error dcs in
    elim (dc_error dc) [ panic p ↦ panic p | done none ↦ rest | done (some e) ↦ done (some e) ]

-- `Validate`, with its error
unfoldable pub validate : List DataCenter → Outcome (Option String)
validate dcs =
    if ltb (length (deployed dcs)) 1
    then done (some "Datacenters array should be at least 1")
    else dcs_error (deployed dcs)
